-- ===== src/Server/Names.antt =====
-- `cleanFilename` and `validateFilename` of internal/server/server.go, with the parts of strings and
-- path that they call, on the bytes of a name.
use jotfs.Prelude.{
  ℕ, Bool, false, ◌&&◌, ◌||◌, List, [], ◌∷◌, ◌++◌, length, ltb, leb, ◌==◌, if◌then◌else◌,
}
use jotfs.Errors.{Result, ok, err, message}
use jotfs.Bytes.{Bytes}
use jotfs.Sum.{sum_eq}

abbrev pub slash : ℕ
slash = 47

abbrev pub dot : ℕ
dot = 46

-- `maxFilenameSize`
abbrev pub max_filename_size : ℕ
max_filename_size = 1_024

abbrev pub is_space : ℕ → Bool
is_space c = c == 32 || (leb 9 c && leb c 13)

-- The spaces of Unicode that take two or three bytes in UTF-8: U+0085, U+00A0, U+1680, U+2000 to
-- U+200A, U+2028, U+2029, U+202F, U+205F and U+3000.
unfoldable pub is_space_2 : ℕ → ℕ → Bool
is_space_2 a b = a == 194 && (b == 133 || b == 160)

unfoldable pub is_space_3 : ℕ → ℕ → ℕ → Bool
is_space_3 a b c =
    (a == 225 && b == 154 && c == 128)
    || (a == 226 && b == 128 && ((leb 128 c && leb c 138) || c == 168 || c == 169 || c == 175))
    || (a == 226 && b == 129 && c == 159)
    || (a == 227 && b == 128 && c == 128)

unfoldable pub trim_left : Bytes → Bytes
trim_left [] = []
trim_left (a ∷ []) = if is_space a then [] else a ∷ []
trim_left (a ∷ b ∷ []) =
    let rest = trim_left (b ∷ []) in
    if is_space a then rest else if is_space_2 a b then [] else a ∷ b ∷ []
trim_left (a ∷ b ∷ c ∷ cs) =
    let one = trim_left (b ∷ c ∷ cs) in
    let two = trim_left (c ∷ cs) in
    let three = trim_left cs in
    if is_space a
    then one
    else if is_space_2 a b
    then two
    else if is_space_3 a b c
    then three
    else a ∷ b ∷ c ∷ cs

-- The same on a name that is reversed
unfoldable pub trim_right : Bytes → Bytes
trim_right [] = []
trim_right (a ∷ []) = if is_space a then [] else a ∷ []
trim_right (a ∷ b ∷ []) =
    let rest = trim_right (b ∷ []) in
    if is_space a then rest else if is_space_2 b a then [] else a ∷ b ∷ []
trim_right (a ∷ b ∷ c ∷ cs) =
    let one = trim_right (b ∷ c ∷ cs) in
    let two = trim_right (c ∷ cs) in
    let three = trim_right cs in
    if is_space a
    then one
    else if is_space_2 b a
    then two
    else if is_space_3 c b a
    then three
    else a ∷ b ∷ c ∷ cs

unfoldable pub reverse_onto : {A : Type 0} → List A → List A → List A
reverse_onto acc [] = acc
reverse_onto acc (x ∷ xs) = reverse_onto (x ∷ acc) xs

-- `strings.TrimSpace`
unfoldable pub trim_space : Bytes → Bytes
trim_space name = reverse_onto [] (trim_right (reverse_onto [] (trim_left name)))

abbrev pub cons_first : ℕ → List Bytes → List Bytes
cons_first c [] = (c ∷ []) ∷ []
cons_first c (s ∷ ss) = (c ∷ s) ∷ ss

-- The elements of a path
unfoldable pub split : Bytes → List Bytes
split [] = [] ∷ []
split (c ∷ cs) = let rest = split cs in if c == slash then [] ∷ rest else cons_first c rest

unfoldable pub join : List Bytes → Bytes
join [] = []
join (s ∷ []) = s
join (s ∷ t ∷ ss) = s ++ (slash ∷ join (t ∷ ss))

abbrev pub dot_dot : Bytes
dot_dot = dot ∷ dot ∷ []

-- `..` takes the element before it away. There is nothing above the root of a rooted path.
unfoldable pub go_up : Bool → List Bytes → List Bytes
go_up rooted [] = if rooted then [] else dot_dot ∷ []
go_up rooted (s ∷ ss) = if sum_eq s dot_dot then dot_dot ∷ s ∷ ss else ss

unfoldable pub clean_element : Bool → List Bytes → Bytes → List Bytes
clean_element rooted done s =
    if length s == 0 || sum_eq s (dot ∷ [])
    then done
    else if sum_eq s dot_dot
    then go_up rooted done
    else s ∷ done

unfoldable pub clean_elements : Bool → List Bytes → List Bytes → List Bytes
clean_elements rooted done [] = done
clean_elements rooted done (s ∷ ss) = clean_elements rooted (clean_element rooted done s) ss

abbrev pub is_rooted : Bytes → Bool
is_rooted [] = false
is_rooted (c ∷ cs) = c == slash

abbrev pub or_dot : List Bytes → Bytes
or_dot [] = dot ∷ []
or_dot (s ∷ ss) = join (s ∷ ss)

-- `path.Clean`
unfoldable pub path_clean : Bytes → Bytes
path_clean name =
    let elements = reverse_onto [] (clean_elements (is_rooted name) [] (split name)) in
    if is_rooted name then slash ∷ join elements else or_dot elements

-- `strings.TrimSuffix(name, "/")`
unfoldable pub trim_slash : Bytes → Bytes
trim_slash [] = []
trim_slash (c ∷ []) = if c == slash then [] else c ∷ []
trim_slash (c ∷ d ∷ cs) = c ∷ trim_slash (d ∷ cs)

unfoldable pub with_root : Bytes → Bytes
with_root name = if is_rooted name then name else slash ∷ name

-- `cleanFilename`
unfoldable pub clean_filename : Bytes → Bytes
clean_filename [] = []
clean_filename (c ∷ cs) = trim_slash (with_root (path_clean (trim_space (c ∷ cs))))

-- `validateFilename`
unfoldable pub validate_filename : Bytes → Result (Unit {0})
validate_filename name =
    if ltb max_filename_size (length name)
    then err (message "filename exceeds maximum size")
    else if length name == 0 || sum_eq name (slash ∷ [])
    then err (message "invalid filename")
    else ok tt
