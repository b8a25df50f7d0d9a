-- ===== src/Ini.antt =====
-- rednet-src/uini.h and uini.cc: the configuration file, read line by line into a map. A file and a
-- string are lists of bytes, with no byte 0 among them.
pub mod Lines
pub mod Parse
pub mod Load
pub mod Tests
use rednet.Common.{
  ℕ, zero, suc, ◌+◌, ◌-◌, Bool, true, false, ◌&&◌, ◌||◌, List, [], ◌∷◌, ◌++◌, Option, none, some,
  map, if◌then◌else◌, leb, ◌==◌, length, get_or, take,
}

abbrev pub newline : ℕ
newline = 10

abbrev pub uini_buf_size : ℕ
uini_buf_size = 1024

abbrev pub is_empty : List ℕ → Bool
is_empty [] = true
is_empty (b ∷ bs) = false

-- `p[plen - 1] == '\n'`
unfoldable pub ends_line : List ℕ → Bool
ends_line [] = false
ends_line (b ∷ []) = b == newline
ends_line (b ∷ c ∷ bs) = ends_line (c ∷ bs)

-- A read of `fgets`: it stops after a newline, after `n` bytes, or at the end of the file, which
-- `feof` then tells. Where it read nothing, `fgets` returns NULL.
pub record Chunk : Type 0 where
  pub text : List ℕ
  pub rest : List ℕ
  pub eof : Bool

abbrev pub and_before : ℕ → Chunk → Chunk
and_before b c = record c { text = b ∷ c.text }

unfoldable pub fgets : ℕ → List ℕ → Chunk
fgets zero bytes = record { text = []; rest = bytes; eof = false }
fgets (suc n) [] = record { text = []; rest = []; eof = true }
fgets (suc n) (b ∷ bytes) =
    let more = fgets n bytes in
    if b == newline then record { text = b ∷ []; rest = bytes; eof = false } else and_before b more

-- The loop of `local_read_line`, with what the buffer holds so far; every round reads a byte or is
-- the last.
unfoldable pub read_rounds : ℕ → List ℕ → List ℕ → List ℕ × List ℕ
read_rounds zero buf bytes = (buf, bytes)
read_rounds (suc f) buf bytes =
    let c = fgets (uini_buf_size - 1) bytes in
    let again = read_rounds f (buf ++ c.text) c.rest in
    if is_empty c.text
    then (buf, c.rest)
    else if ends_line c.text || c.eof
    then (buf ++ c.text, c.rest)
    else again

-- `local_read_line`: the line, and what is left of the file
unfoldable pub read_line : List ℕ → List ℕ × List ℕ
read_line bytes = read_rounds (length bytes + 1) [] bytes

-- `isspace` of the C locale
unfoldable pub isspace : ℕ → Bool
isspace c = (c == 32) || (leb 9 c && leb c 13)

-- the loop from the left: `str[i]` at the end of a string is 0
unfoldable pub drop_left : (ℕ → Bool) → List ℕ → List ℕ
drop_left p [] = []
drop_left p (b ∷ str) = let rest = drop_left p str in if p b then rest else b ∷ str

-- the loop from the right, with `n` bytes left: how many bytes stay
unfoldable pub kept : (ℕ → Bool) → List ℕ → ℕ → ℕ
kept p str zero = 0
kept p str (suc i) = let less = kept p str i in if p (get_or str i 0) then less else suc i

unfoldable pub drop_right : (ℕ → Bool) → List ℕ → List ℕ
drop_right p str = take (kept p str (length str)) str

-- `__trimright__(str, c)` and `__trim__(str)`
unfoldable pub trim_right : ℕ → List ℕ → List ℕ
trim_right c str = drop_right (λ b. b == c) str

unfoldable pub trim : List ℕ → List ℕ
trim str = drop_right isspace (drop_left isspace str)

-- a flag at the start of the line
unfoldable pub starts_with : List ℕ → List ℕ → Bool
starts_with [] str = true
starts_with (f ∷ flag) [] = false
starts_with (f ∷ flag) (b ∷ str) = (b == f) && starts_with flag str

-- `flags__` of the constructor, `#` and `;`
abbrev pub flags : List (List ℕ)
flags = (35 ∷ []) ∷ (59 ∷ []) ∷ []

-- `local_iscomment`, over the flags
unfoldable pub is_comment : List (List ℕ) → List ℕ → Bool
is_comment [] str = false
is_comment (flag ∷ more) str =
    let later = is_comment more str in if starts_with flag str then true else later

abbrev pub and_key : ℕ → Option (List ℕ × List ℕ) → Option (List ℕ × List ℕ)
and_key b none = none
and_key b (some (key, value)) = some (b ∷ key, value)

-- the bytes before the first `c` and those after it
unfoldable pub split_at : ℕ → List ℕ → Option (List ℕ × List ℕ)
split_at c [] = none
split_at c (b ∷ str) =
    let later = and_key b (split_at c str) in if b == c then some ([], str) else later

abbrev pub trim_both : Option (List ℕ × List ℕ) → Option (List ℕ × List ℕ)
trim_both none = none
trim_both (some (key, value)) = some (trim key, trim value)

-- `local_parse`
unfoldable pub parse : ℕ → List ℕ → Option (List ℕ × List ℕ)
parse c content = trim_both (split_at c content)

unfoldable pub same_key : List ℕ → List ℕ → Bool
same_key [] [] = true
same_key (a ∷ xs) (b ∷ ys) = (a == b) && same_key xs ys
same_key _ _ = false

-- `sections__[key] = value`
unfoldable pub put_value : List ℕ → List ℕ → List (List ℕ × List ℕ) → List (List ℕ × List ℕ)
put_value key value [] = (key, value) ∷ []
put_value key value ((k, v) ∷ sections) =
    let later = (k, v) ∷ put_value key value sections in
    if same_key k key then (k, value) ∷ sections else later

-- `local_get_value`
unfoldable pub get_value : List ℕ → List (List ℕ × List ℕ) → List ℕ
get_value key [] = []
get_value key ((k, v) ∷ sections) =
    let later = get_value key sections in if same_key k key then v else later

-- the line as the loop of `load` trims it
unfoldable pub clean : List ℕ → List ℕ
clean line = trim (trim_right 13 (trim_right newline line))

abbrev pub put_parsed : Option (List ℕ × List ℕ) → List (List ℕ × List ℕ) → List (List ℕ × List ℕ)
put_parsed none sections = sections
put_parsed (some (key, value)) sections = put_value key value sections

-- the body of the loop of `load`
unfoldable pub take_line : List ℕ → List (List ℕ × List ℕ) → List (List ℕ × List ℕ)
take_line line sections =
    let str = clean line in
    if is_comment flags str
    then sections
    else if is_empty (trim str)
    then sections
    else put_parsed (parse 61 (trim str)) sections

-- The loop of `load`; every round reads a byte or is the last.
unfoldable pub load_rounds : ℕ → List ℕ → List (List ℕ × List ℕ) → List (List ℕ × List ℕ)
load_rounds zero bytes sections = sections
load_rounds (suc f) bytes sections =
    let (line, rest) = read_line bytes in
    let again = load_rounds f rest (take_line line sections) in
    if is_empty line then sections else again

-- `load` of a file that opens
unfoldable pub load : List ℕ → List (List ℕ × List ℕ)
load bytes = load_rounds (length bytes + 1) bytes []

unfoldable pub get_string_value : List ℕ → List ℕ → List (List ℕ × List ℕ) → List ℕ
get_string_value key default_v sections =
    let value = get_value key sections in if is_empty value then default_v else value

-- `tolower` of the C locale
unfoldable pub tolower : ℕ → ℕ
tolower c = if leb 65 c && leb c 90 then c + 32 else c

unfoldable pub get_boolean_value : List ℕ → Bool → List (List ℕ × List ℕ) → Bool
get_boolean_value key default_v sections =
    let value = get_value key sections in
    if is_empty value then default_v else same_key (map tolower value) (116 ∷ 114 ∷ 117 ∷ 101 ∷ [])
