-- ===== src/Shadow/Roots/Copy.antt =====
-- scripts/gnoroot.py: what the copy of `examples` holds.
use cryptocourt.Base.{
  ◌≡◌, refl, ap, sym, Bool, true, false, ◌||◌, Option, none, some, List, [], ◌∷◌, arith,
  if◌then◌else◌,
}
use cryptocourt.Base.Text.{Text, ◌=text◌}
use cryptocourt.Base.Text.Laws.{=text_sound}
use cryptocourt.Shadow.Roots.{Tree, empty, file, dir, is_skipped, copy_tree}

abbrev content_at : List Text → Text → Option Text
content_at [] content = some content
content_at (n ∷ path) content = none

-- The content of the file at a path.
abbrev pub walk : List Text → Tree → Option Text
walk [] t = none
walk (n ∷ path) empty = none
walk (n ∷ path) (file m content rest) =
    let later = walk (n ∷ path) rest in if n =text m then content_at path content else later
walk (n ∷ path) (dir m below rest) =
    let later = walk (n ∷ path) rest in
    let inner = walk path below in if n =text m then inner else later

-- Whether a path goes through a name that is skipped.
abbrev pub crosses : (parent last : Text) → List Text → Bool
crosses parent last [] = false
crosses parent last (n ∷ path) = is_skipped parent last n || crosses last n path

skipped_same :
    (parent last n m : Text)
    → (n =text m) ≡ true
    → is_skipped parent last m ≡ is_skipped parent last n
skipped_same parent last n m h = ap (λ k. is_skipped parent last k) (sym (=text_sound n m h))

crosses_same :
    (last n m : Text) (path : List Text)
    → (n =text m) ≡ true
    → crosses last m path ≡ crosses last n path
crosses_same last n m path h = ap (λ k. crosses last k path) (sym (=text_sound n m h))

content_crosses :
    (last n content : Text) (path : List Text)
    → content_at path content ≡ (if crosses last n path then none else content_at path content)
content_crosses last n content [] = refl
content_crosses last n content (k ∷ path) = ground arith

-- One entry, of which `skip` says whether the copy leaves it out; `skip_n` and `cross` are what the
-- path's own names say.
walk_file :
    (n m content : Text) (path : List Text) (rest copied : Tree) (skip skip_n cross : Bool)
    → walk (n ∷ path) copied ≡ (if skip_n || cross then none else walk (n ∷ path) rest)
    → ((n =text m) ≡ true → skip ≡ skip_n)
    → content_at path content ≡ (if cross then none else content_at path content)
    → walk (n ∷ path) (if skip then copied else file m content copied)
      ≡ (if skip_n || cross then none else walk (n ∷ path) (file m content rest))
walk_file n m content path rest copied skip skip_n cross ih same found = ground arith

walk_dir :
    (n m : Text) (path : List Text) (rest copied below inner : Tree)
    (skip skip_n cross cross_m : Bool)
    → walk (n ∷ path) copied ≡ (if skip_n || cross then none else walk (n ∷ path) rest)
    → walk path inner ≡ (if cross_m then none else walk path below)
    → ((n =text m) ≡ true → skip ≡ skip_n)
    → ((n =text m) ≡ true → cross_m ≡ cross)
    → walk (n ∷ path) (if skip then copied else dir m inner copied)
      ≡ (if skip_n || cross then none else walk (n ∷ path) (dir m below rest))
walk_dir n m path rest copied below inner skip skip_n cross cross_m ih deeper same crossed =
    ground arith

-- The copy holds a file exactly if the source does and its path goes through no directory, or file,
-- that another runner stages; its content is the source's.
pub walk-copy_tree :
    (parent last : Text) (path : List Text) (t : Tree)
    → walk path (copy_tree parent last t) ≡ (if crosses parent last path then none else walk path t)
unfolding copy_tree
walk-copy_tree parent last [] t = refl
walk-copy_tree parent last (n ∷ path) empty = ground arith
walk-copy_tree parent last (n ∷ path) (file m content rest) =
    walk_file n m content path rest (copy_tree parent last rest) (is_skipped parent last m)
      (is_skipped parent last n) (crosses last n path) (walk-copy_tree parent last (n ∷ path) rest)
      (skipped_same parent last n m) (content_crosses last n content path)
walk-copy_tree parent last (n ∷ path) (dir m below rest) =
    walk_dir n m path rest (copy_tree parent last rest) below (copy_tree last m below)
      (is_skipped parent last m) (is_skipped parent last n) (crosses last n path)
      (crosses last m path) (walk-copy_tree parent last (n ∷ path) rest)
      (walk-copy_tree last m path below) (skipped_same parent last n m) (crosses_same last n m path)
