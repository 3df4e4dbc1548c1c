-- ===== src/Paths/Tests.antt =====
-- Paths that are read, cleaned, printed and joined.
use deploykit.Base.{◌≡◌, refl, some, true, [], ◌∷◌, inl, inr}
use deploykit.Paths.{PathName, clean, path_from_string, path_string, join, rel, less_path, dir}
use deploykit.Paths.Clean.{clean_idempotent}
use deploykit.Paths.Print.{path_from_string_reads}
use deploykit.Paths.Relative.{rel-join}

reads : path_from_string "a/./b/../c/" ≡ "a" ∷ "c" ∷ "" ∷ []
unfolding path_from_string
reads = refl

-- Two steps up are NullPath, and so are a name and a step up.
steps_up :
    (path_from_string "../.." ≡ [])
    × (path_from_string "a/.." ≡ [])
    × (path_from_string ".." ≡ ".." ∷ [])
unfolding path_from_string
steps_up = (refl, refl, refl)

-- The root is lost where it is all that is left: the path prints as nothing, and nothing is the dot.
lost_root :
    (path_from_string "/a/.." ≡ "" ∷ [])
    × (path_string ("" ∷ []) ≡ "")
    × (path_from_string "" ≡ "." ∷ [])
unfolding path_from_string path_string
lost_root = (refl, refl, refl)

-- Dir slices the path that it was given, by the length of the one that it cleaned.
dir_of_dot : dir ("." ∷ "a" ∷ "b" ∷ []) ≡ "." ∷ []
unfolding dir
dir_of_dot = refl

ordered : less_path ("a" ∷ "b" ∷ []) ("a" ∷ "c" ∷ []) ≡ true
unfolding less_path
ordered = refl

joined :
    (join ("a" ∷ "" ∷ []) ("c" ∷ []) ≡ some ("a" ∷ "c" ∷ []))
    × (rel ("a" ∷ "c" ∷ []) ("a" ∷ "" ∷ []) ≡ some ("c" ∷ []))
unfolding join rel
joined = (refl, refl)

clean_idempotent_example :
    clean (clean ("a" ∷ "." ∷ "b" ∷ ".." ∷ [])) ≡ clean ("a" ∷ "." ∷ "b" ∷ ".." ∷ [])
unfolding clean
clean_idempotent_example = clean_idempotent ("a" ∷ "." ∷ "b" ∷ ".." ∷ []) (λ e. cc)

path_from_string_reads_example :
    path_from_string (path_string (path_from_string "a/./c/")) ≡ path_from_string "a/./c/"
unfolding path_from_string
path_from_string_reads_example = path_from_string_reads "a/./c/" (λ e. cc) (λ e. cc)

rel-join_example :
    (q : PathName) × (join ("a" ∷ "" ∷ []) ("c" ∷ []) ≡ some q)
    × (rel q ("a" ∷ "" ∷ []) ≡ some ("c" ∷ []))
rel-join_example =
    rel-join ("a" ∷ "" ∷ []) ("c" ∷ [])
      (inr ("a", [], true, inl (λ e. cc, λ e. cc, λ e. cc), tt, refl))
      ((λ e. cc, λ e. cc, λ e. cc), tt) (λ e. cc)
