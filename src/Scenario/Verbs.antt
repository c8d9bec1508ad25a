-- ===== src/Scenario/Verbs.antt =====
-- scripts/scenario.py: the methods of `Scenario` that record one transaction on the realm each, and
-- `media_arg`, the one-argument form of a list of exhibits.
use cryptocourt.Base.{Bool, Option, none, some, List, [], ◌∷◌, ◌++◌, map, if◌then◌else◌}
use cryptocourt.Base.Text.{Text, codes, join}
use cryptocourt.Base.Int.{ℤ, pos, str_int}
use cryptocourt.Base.Exec.{pure, ◌>>◌}
use cryptocourt.Scenario.Step.{Value, str_value}
use cryptocourt.Scenario.Builder.{Method, call_step}

-- An exhibit is a dict in which every key may be missing.
pub record Exhibit : Type 0 where
  pub kind : Option Text
  pub sha256 : Option Text
  pub mime : Option Text
  pub w : Option ℤ
  pub h : Option ℤ
  pub bytes : Option ℤ
  pub caption : Option Text
  pub mirrors : Option (List Text)

abbrev get_key {ℓ} : {A : Type ℓ} → Option A → A → A
get_key none d = d
get_key (some a) d = a

-- The eight fields of one exhibit.
unfoldable pub exhibit_fields : Exhibit → List Text
exhibit_fields it =
    get_key it.kind (codes "img")
    ∷ get_key it.sha256 []
    ∷ get_key it.mime []
    ∷ str_int (get_key it.w (pos 0))
    ∷ str_int (get_key it.h (pos 0))
    ∷ str_int (get_key it.bytes (pos 0))
    ∷ get_key it.caption []
    ∷ join (codes ",") (get_key it.mirrors [])
    ∷ []

unfoldable pub media_arg : List Exhibit → Text
unfolding exhibit_fields
media_arg items = join (codes "\n") (map (λ it. join (codes "|") (exhibit_fields it)) items)

unfoldable pub court : Text → Text → Text → Option Value → Method Text
unfolding call_step
court who slug name none = do
  call_step who (codes "StartCourt") (slug ∷ name ∷ []) none []
  pure slug
court who slug name (some polish) = do
  call_step who (codes "StartCourtP") (slug ∷ name ∷ str_value polish ∷ []) none []
  pure slug

unfoldable pub buy : Text → Text → ℤ → Method (Unit {0})
unfolding call_step
buy who slug ugnot =
    call_step who (codes "Buy") (slug ∷ []) (some (str_int ugnot ++ codes "ugnot")) []

-- A missing body and an empty one, and no exhibits and an empty list of them, are treated alike.
unfoldable pub claim : Text → Text → Text → Text → List Exhibit → Method (Unit {0})
unfolding call_step media_arg
claim who slug title body (it ∷ items) =
    call_step who (codes "OpenClaimPM") (slug ∷ title ∷ body ∷ media_arg (it ∷ items) ∷ []) none []
claim who slug title (c ∷ body) [] =
    call_step who (codes "OpenClaimP") (slug ∷ title ∷ (c ∷ body) ∷ []) none []
claim who slug title [] [] = call_step who (codes "OpenClaim") (slug ∷ title ∷ []) none []

module _ (who slug : Text) where
  unfoldable pub stake : ℤ → Text → ℤ → Method (Unit {0})
  unfolding call_step
  stake cid side amount =
      call_step who (codes "Stake") (slug ∷ str_int cid ∷ side ∷ str_int amount ∷ []) none []

  unfoldable pub unstake : ℤ → Text → ℤ → Method (Unit {0})
  unfolding call_step
  unstake cid side amount =
      call_step who (codes "Unstake") (slug ∷ str_int cid ∷ side ∷ str_int amount ∷ []) none []

  unfoldable pub answer : ℤ → Text → Method (Unit {0})
  unfolding call_step
  answer cid verdict =
      call_step who (codes "PostAnswer") (slug ∷ str_int cid ∷ verdict ∷ []) none []

  unfoldable pub settle : ℤ → Method (Unit {0})
  unfolding call_step
  settle cid = call_step who (codes "SettleUndisputed") (slug ∷ str_int cid ∷ []) none []

  unfoldable pub dispute : ℤ → Method (Unit {0})
  unfolding call_step
  dispute cid = call_step who (codes "OpenDispute") (slug ∷ str_int cid ∷ []) none []

  unfoldable pub vote : ℤ → Text → Method (Unit {0})
  unfolding call_step
  vote cid choice = call_step who (codes "VoteDispute") (slug ∷ str_int cid ∷ choice ∷ []) none []

  unfoldable pub folder : Text → Text → Method (Unit {0})
  unfolding call_step
  folder name desc = call_step who (codes "CreateFolder") (slug ∷ name ∷ desc ∷ []) none []

  unfoldable pub folder_add : ℤ → ℤ → Method (Unit {0})
  unfolding call_step
  folder_add fid cid =
      call_step who (codes "AddToFolder") (slug ∷ str_int fid ∷ str_int cid ∷ []) none []

  unfoldable pub hide : ℤ → Text → Method (Unit {0})
  unfolding call_step
  hide cid reason = call_step who (codes "HideItem") (slug ∷ str_int cid ∷ reason ∷ []) none []

  unfoldable pub comment_pass : Method (Unit {0})
  unfolding call_step
  comment_pass = call_step who (codes "BuyCommentPass") (slug ∷ []) none []

  unfoldable pub comment : ℤ → Text → ℤ → Method (Unit {0})
  unfolding call_step
  comment cid text parent =
      call_step who (codes "PostComment") (slug ∷ str_int cid ∷ str_int parent ∷ text ∷ []) none []

  unfoldable pub upvote : ℤ → ℤ → Method (Unit {0})
  unfolding call_step
  upvote cid row =
      call_step who (codes "UpvoteComment") (slug ∷ str_int cid ∷ str_int row ∷ []) none []

  unfoldable pub withdraw_comment : ℤ → ℤ → Bool → Method (Unit {0})
  unfolding call_step
  withdraw_comment cid row gone =
      call_step who (codes "HideOwnComment")
        (slug ∷ str_int cid ∷ str_int row ∷ (if gone then codes "true" else codes "false") ∷ [])
        none []

  unfoldable pub hide_comment : ℤ → ℤ → Text → Method (Unit {0})
  unfolding call_step
  hide_comment cid row code =
      call_step who (codes "HideBoardRow") (slug ∷ str_int cid ∷ str_int row ∷ code ∷ []) none []
