-- ===== src/Paths.antt =====
-- pkg/types/path.go: paths to pieces of metadata, as lists of components.
pub mod Clean
pub mod Print
pub mod Relative
mod Tests
use Prim.Native.Char.{Char, code}
use Prim.Native.String.{String, [], ◌∷◌}
use Prim.Native.String
use deploykit.Base.{
  ℕ, Option, none, some, Bool, true, false, List, [], ◌∷◌, ◌++◌, ◌&&◌, ◌||◌, if◌then◌else◌, ltb,
  leb, ◌==◌, length, drop, take, get_elem?,
}
use deploykit.Group.Text.{eqb_str, lt_str}
use mathlib.Core.List.{reverse_aux}

-- `type Path []string`.
abbrev pub PathName : Type 0
PathName = List String

abbrev pub null_path : PathName
null_path = []

abbrev pub dot : PathName
dot = "." ∷ []

abbrev pub slash : Char
slash = "/"

-- A character in front of the first of the parts.
abbrev pub push_front : Char → List String → List String
push_front c [] = (c ∷ "") ∷ []
push_front c (part ∷ parts) = (c ∷ part) ∷ parts

-- `strings.Split(path, "/")`.
unfoldable pub split_slash : String → List String
split_slash [] = "" ∷ []
split_slash (c ∷ s) =
    let rest = split_slash s in if code c == code slash then "" ∷ rest else push_front c rest

-- `strings.Join(p, "/")`.
unfoldable pub join_slash : List String → String
join_slash [] = ""
join_slash (part ∷ []) = part
join_slash (part ∷ next ∷ parts) =
    let rest = join_slash (next ∷ parts) in Prim.Native.String.◌++◌ part (slash ∷ rest)

-- The loop of `Clean`: `stack` is `copy` with its last component at the head, `first` says that i
-- is 0, and `none` is the return of NullPath.
unfoldable pub clean_from : Bool → List String → List String → Option (List String)
clean_from first stack [] = some stack
clean_from first stack (v ∷ vs) =
    let same = clean_from false stack vs in
    let empty = clean_from false ("" ∷ stack) vs in
    let up = clean_from false (".." ∷ stack) vs in
    let down = clean_from false (drop 1 stack) vs in
    let named = clean_from false (v ∷ stack) vs in
    if eqb_str v "."
    then same
    else if eqb_str v ""
    then (if first then empty else same)
    else if eqb_str v ".."
    then (if length stack == 0 then up else if length stack == 1 then none else down)
    else named

-- `this[len(this)-1]`, for a path with a component.
abbrev pub last_or : String → List String → String
last_or v [] = v
last_or v (w ∷ ws) = last_or w ws

-- The test for a trailing separator.
abbrev pub is_open : PathName → Bool
is_open [] = false
is_open (v ∷ vs) =
    (eqb_str (last_or v vs) "" || eqb_str (last_or v vs) ".") && ltb 1 (length (v ∷ vs))

-- `Clean`.
unfoldable pub clean : PathName → PathName
unfolding clean_from
clean p = elim (clean_from true [] p) [
  | none ↦ null_path
  | some [] ↦ dot
  | some (v ∷ stack) ↦
      let copy = reverse_aux (v ∷ stack) [] in if is_open p then copy ++ "" ∷ [] else copy
]

-- `PathFromString` and `String`.
unfoldable pub path_from_string : String → PathName
unfolding clean split_slash
path_from_string path = if eqb_str path "" then clean [] else clean (split_slash path)

unfoldable pub path_string : PathName → String
unfolding join_slash
path_string p = if length p == 0 then "." else join_slash p

-- `Valid`, `Dot`, `Index` and `Shift`; a negative index panics in Go.
unfoldable pub is_valid : PathName → Bool
is_valid p = ltb 0 (length p)

unfoldable pub is_dot : PathName → Bool
is_dot [] = false
is_dot (v ∷ vs) = length vs == 0 && eqb_str v "."

unfoldable pub index_path : PathName → ℕ → Option String
index_path p i = get_elem? p i

unfoldable pub shift : PathName → ℕ → PathName
shift p i = if leb (length p) i then [] else drop i p

-- A path without its last component, where that is empty: `none` is the panic on no component.
abbrev pub strip : PathName → Option PathName
strip [] = none
strip (v ∷ vs) = some (if eqb_str (last_or v vs) "" then take (length vs) (v ∷ vs) else v ∷ vs)

-- `Dir` and `Base`; `none` is a panic on an index or a slice out of range.
unfoldable pub dir : PathName → PathName
unfolding clean
dir p = let n = length (clean p) in if ltb 1 n then take (Prim.Native.Nat.◌-◌ n 1) p else dot

unfoldable pub base : PathName → Option String
unfolding clean
base p = elim (clean p) [ [] ↦ none | v ∷ vs ↦ some (last_or v vs) ]

-- `Join`, which panics where the parent is cleaned to no component.
unfoldable pub join : PathName → PathName → Option PathName
unfolding clean
join p child = elim (strip (clean p)) [ none ↦ none | some pp ↦ some (clean (pp ++ child)) ]

-- `Equal`.
unfoldable pub equal : PathName → PathName → Bool
equal [] [] = true
equal [] (w ∷ ws) = false
equal (v ∷ vs) [] = false
equal (v ∷ vs) (w ∷ ws) = let rest = equal vs ws in eqb_str v w && rest

-- What is left of a path after the components of another; `none` where they differ.
unfoldable pub after : PathName → PathName → Option PathName
after this [] = some this
after [] (w ∷ parent) = none
after (v ∷ this) (w ∷ parent) = let rest = after this parent in if eqb_str v w then rest else none

abbrev pub or_null : Option PathName → PathName
or_null none = null_path
or_null (some p) = p

-- `Rel`; `none` is the panic on a parent without a component.
unfoldable pub rel : PathName → PathName → Option PathName
unfolding clean path_from_string equal after
rel p path = if equal path (path_from_string ".") then some p else elim (strip (clean path)) [
  | none ↦ none
  | some parent ↦ some (or_null (after (clean p) parent))
]

-- `Less`.
unfoldable pub less_path : PathName → PathName → Bool
unfolding lt_str
less_path [] [] = false
less_path [] (w ∷ ws) = true
less_path (v ∷ vs) [] = false
less_path (v ∷ vs) (w ∷ ws) = let rest = less_path vs ws in if eqb_str v w then rest else lt_str v w
