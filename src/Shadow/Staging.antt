-- ===== src/Shadow/Staging.antt =====
-- What staging changes: nothing outside the shadow root, so never the sources.
use cryptocourt.Base.{◌≡◌, refl, ◌∙◌, false, List, [], ◌∷◌, All, arith}
use cryptocourt.Base.Text.{Text}
use cryptocourt.Base.Disk.{Disk, join_path, is_under, remove_tree}
use cryptocourt.Shadow.{stage_one, stage, unstage}

-- A path outside every staged directory.
abbrev pub Outside : Text → List (Text × Text) → Text → Type 0
Outside root pairs p = All (λ (x : Text × Text). is_under (join_path root x.1) p ≡ false) pairs

remove_tree_outside :
    (d p : Text) (disk : Disk) → is_under d p ≡ false → remove_tree d disk p ≡ disk p
unfolding remove_tree
remove_tree_outside d p disk h = rw h

pub stage_one_outside :
    (root src rel p : Text) (disk : Disk)
    → is_under (join_path root rel) p ≡ false
    → stage_one root src rel disk p ≡ disk p
unfolding stage_one is_under
stage_one_outside root src rel p disk h = ground arith

-- Staging leaves every path as it was that is outside the destinations of its pairs.
pub stage-Outside :
    (root : Text) (pairs : List (Text × Text)) (p : Text) (disk : Disk)
    → Outside root pairs p
    → stage root pairs disk p ≡ disk p
unfolding stage
stage-Outside root [] p disk h = refl
stage-Outside root ((src, rel) ∷ pairs) p disk (h, hs) =
    stage-Outside root pairs p (stage_one root src rel disk) hs
    ∙ stage_one_outside root src rel p disk h

pub unstage-Outside :
    (root : Text) (pairs : List (Text × Text)) (p : Text) (disk : Disk)
    → Outside root pairs p
    → unstage root pairs disk p ≡ disk p
unfolding unstage
unstage-Outside root [] p disk h = refl
unstage-Outside root ((src, rel) ∷ pairs) p disk (h, hs) =
    unstage-Outside root pairs p (remove_tree (join_path root rel) disk) hs
    ∙ remove_tree_outside (join_path root rel) p disk h
