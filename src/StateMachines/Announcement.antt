-- ===== src/StateMachines/Announcement.antt =====
-- class AnnouncementStateMachine, over any type of the parts of a namespace. `Date.now()` is an argument.
use Prim.Native.String.{String}
use moq_web.Base.{ℕ, Bool, List, [], ◌∷◌, Option, none, some, ◌==◌, ◌||◌, if◌then◌else◌}
use moq_web.StateMachines.{StateMachine, Outcome, transition}

pub data AnnouncementState : Type 0 where
  pending active ended error : AnnouncementState

unfoldable pub announcement_transitions : AnnouncementState → List AnnouncementState
announcement_transitions pending = active ∷ error ∷ ended ∷ []
announcement_transitions active = ended ∷ error ∷ []
announcement_transitions ended = []
announcement_transitions error = []

abbrev rank : AnnouncementState → ℕ
rank pending = 0
rank active = 1
rank ended = 2
rank error = 3

abbrev pub same_state : AnnouncementState → AnnouncementState → Bool
same_state a b = rank a == rank b

pub record AnnouncementStateMachine (Part : Type 0) : Type 0 where
  pub base : StateMachine AnnouncementState
  pub namespace : List Part
  pub error_code : Option ℕ
  pub error_reason : Option String
  pub active_at : Option ℕ

abbrev pub Result : Type 0 → Type 0
Result Part = Outcome (AnnouncementStateMachine Part) AnnouncementState

module _ {Part : Type 0} where
  unfoldable pub new : List Part → AnnouncementStateMachine Part
  new namespace = record {
    base = record { state = pending; handlers = [] };
    namespace = namespace;
    error_code = none;
    error_reason = none;
    active_at = none;
  }

  unfoldable pub is_active : AnnouncementStateMachine Part → Bool
  is_active s = same_state s.base.state active

  unfoldable pub has_ended : AnnouncementStateMachine Part → Bool
  has_ended s = same_state s.base.state ended || same_state s.base.state error

  -- `this.transition(target, reason)`
  unfoldable pub go :
      AnnouncementState → Option String → AnnouncementStateMachine Part → Result Part
  unfolding transition announcement_transitions
  go target reason s =
      let (m, success, told) =
        transition same_state announcement_transitions target reason s.base in
      (record s { base = m }, success, told)

  unfoldable pub set_active : ℕ → AnnouncementStateMachine Part → Result Part
  unfolding go
  set_active now s =
      let (s', success, told) = go active none s in
      (if success then record s' { active_at = some now } else s', success, told)

  unfoldable pub set_ended : Option String → AnnouncementStateMachine Part → Result Part
  unfolding go
  set_ended reason s = go ended reason s

  unfoldable pub set_error : ℕ → String → AnnouncementStateMachine Part → Result Part
  unfolding go
  set_error error_code reason s =
      go error (some reason) (record s { error_code = some error_code; error_reason = some reason })
