-- ===== src/Paths.antt =====
-- Python's `PurePosixPath`: what `pathlib` keeps of a path's text. Links and the current directory
-- (`resolve`) belong to the file system, which each module takes as a parameter.
use pytest_hardware_template.Prelude.{
  String, Bool, true, false, List, [], ◌∷◌, ◌++◌, ◌&&◌, ◌||◌, not, ◌==◌, if◌then◌else◌, elem, split,
  has_prefix, join, concat,
}

-- `root` is "", "/", or "//" where the text begins with just two slashes.
pub record FilePath : Type 0 where
  pub root : String
  pub parts : List String

unfoldable pub root_of : String → String
unfolding has_prefix
root_of s =
    if has_prefix s "///"
    then "/"
    else if has_prefix s "//"
    then "//"
    else if has_prefix s "/"
    then "/"
    else ""

-- empty parts and `.` are dropped, `..` is kept
unfoldable pub clean : List String → List String
clean [] = []
clean (p ∷ ps) = let rest = clean ps in if p == "" || p == "." then rest else p ∷ rest

-- `PurePosixPath(text)`
unfoldable pub parse : String → FilePath
unfolding root_of clean split
parse s = record { root = root_of s; parts = clean (split b'/' s) }

abbrev pub is_empty : List String → Bool
is_empty [] = true
is_empty (p ∷ ps) = false

-- `str(path)`
unfoldable pub path_str : FilePath → String
unfolding join concat
path_str p =
    if p.root == "" && is_empty p.parts then "." else concat (p.root ∷ join "/" p.parts ∷ [])

unfoldable pub is_absolute : FilePath → Bool
is_absolute p = not (p.root == "")

-- `".." in path.parts`
unfoldable pub has_dotdot : FilePath → Bool
has_dotdot p = elem ".." p.parts

unfoldable pub parts_eq : List String → List String → Bool
parts_eq [] [] = true
parts_eq (a ∷ as') (b ∷ bs) = a == b && parts_eq as' bs
parts_eq _ _ = false

unfoldable pub path_eq : FilePath → FilePath → Bool
unfolding parts_eq
path_eq p q = p.root == q.root && parts_eq p.parts q.parts

-- the second list begins the first
unfoldable pub begins : List String → List String → Bool
begins ps [] = true
begins [] (q ∷ qs) = false
begins (p ∷ ps) (q ∷ qs) = p == q && begins ps qs

-- `path.is_relative_to(other)`
unfoldable pub is_relative_to : FilePath → FilePath → Bool
unfolding begins
is_relative_to p q = p.root == q.root && begins p.parts q.parts

-- `a / b`
unfoldable pub divide : FilePath → FilePath → FilePath
divide a b = if b.root == "" then record a { parts = a.parts ++ b.parts } else b

init : List String → List String
init [] = []
init (p ∷ []) = []
init (p ∷ q ∷ ps) = p ∷ init (q ∷ ps)

last : List String → String
last [] = ""
last (p ∷ []) = p
last (p ∷ q ∷ ps) = last (q ∷ ps)

-- `path.parent`, `path.name`
unfoldable pub parent : FilePath → FilePath
unfolding init
parent p = record p { parts = init p.parts }

unfoldable pub name : FilePath → String
unfolding last
name p = last p.parts
