-- ===== src/Net/Strings.antt =====
-- The text functions of Rust that crates/eryx/src/net.rs calls on headers, on UTF-8 bytes.
use eryx.Prelude.{
  ℕ, zero, suc, ◌-◌, Bool, true, false, ◌&&◌, ◌||◌, List, [], ◌∷◌, ◌++◌, nat_eq, leb, length,
  if◌then◌else◌,
}
use eryx.Prelude.Text.{Text, starts_with}

abbrev pub crlf : Text
crlf = 13 ∷ 10 ∷ []

abbrev pub cons_line : ℕ → List Text → List Text
cons_line c [] = (c ∷ []) ∷ []
cons_line c (l ∷ ls) = (c ∷ l) ∷ ls

-- `str::lines`: split behind each "\n", without it and without a "\r" before it.
unfoldable pub lines : Text → List Text
unfolding starts_with
lines [] = []
lines (c ∷ cs) =
    let rest = lines cs in
    if nat_eq c 10
    then [] ∷ rest
    else if nat_eq c 13 && starts_with cs (10 ∷ [])
    then rest
    else cons_line c rest

-- `str::replace`: each place of `from`, from the left and without overlap; `skip` bytes are part of
-- the place that was found last.
unfoldable pub replace_from : Text → Text → ℕ → Text → Text
unfolding starts_with
replace_from from to skip [] = []
replace_from from to (suc skip) (c ∷ cs) = replace_from from to skip cs
replace_from from to zero (c ∷ cs) =
    let found = to ++ replace_from from to (length from - 1) cs in
    let kept = c ∷ replace_from from to zero cs in if starts_with (c ∷ cs) from then found else kept

-- With nothing to look for, `to` goes before each character and at the end.
unfoldable pub insert_between : Text → Text → Text
insert_between to [] = to
insert_between to (c ∷ cs) =
    let rest = c ∷ insert_between to cs in if leb 128 c && leb c 191 then rest else to ++ rest

abbrev is_nil : Text → Bool
is_nil [] = true
is_nil (c ∷ cs) = false

unfoldable pub replace : Text → Text → Text → Text
unfolding replace_from insert_between
replace text from to =
    if is_nil from then insert_between to text else replace_from from to zero text

-- The length of the white space character that a text starts with, 0 if it starts with none.
unfoldable pub space_length : Text → ℕ
space_length [] = 0
space_length (c ∷ []) = if nat_eq c 32 || (leb 9 c && leb c 13) then 1 else 0
space_length (c ∷ d ∷ []) =
    if nat_eq c 32 || (leb 9 c && leb c 13)
    then 1
    else if nat_eq c 0xC2 && (nat_eq d 0x85 || nat_eq d 0xA0)
    then 2
    else 0
space_length (c ∷ d ∷ e ∷ s) =
    if nat_eq c 32 || (leb 9 c && leb c 13)
    then 1
    else if nat_eq c 0xC2 && (nat_eq d 0x85 || nat_eq d 0xA0)
    then 2
    else if (nat_eq c 0xE1 && (nat_eq d 0x9A && nat_eq e 0x80))
        || ((nat_eq c 0xE2
              && ((nat_eq d 0x80
                    && ((leb 0x80 e && leb e 0x8A)
                        || (nat_eq e 0xA8 || (nat_eq e 0xA9 || nat_eq e 0xAF))))
                  || (nat_eq d 0x81 && nat_eq e 0x9F)))
            || (nat_eq c 0xE3 && (nat_eq d 0x80 && nat_eq e 0x80)))
    then 3
    else 0

-- `str::trim_start`; `skip` bytes of a white space character are left to drop.
unfoldable pub trim_from : ℕ → Text → Text
unfolding space_length
trim_from skip [] = []
trim_from (suc skip) (c ∷ cs) = trim_from skip cs
trim_from zero (c ∷ cs) =
    let rest = trim_from (space_length (c ∷ cs) - 1) cs in
    if nat_eq (space_length (c ∷ cs)) 0 then c ∷ cs else rest

unfoldable pub trim_start : Text → Text
unfolding trim_from
trim_start s = trim_from zero s
