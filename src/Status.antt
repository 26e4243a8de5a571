-- ===== src/Status.antt =====
-- internal/controller/status_helpers.go: the condition Ready of a status.
use mikrotik_operator.Base.{
  ℕ, Text, text, List, [], ◌∷◌, ◌==◌, nat_eq, list_eq, ◌&&◌, if◌then◌else◌, Bool, ◌≡◌, eq_refl,
}

-- `metav1.Condition`; a time is a number.
pub record Condition : Type 0 where
  pub kind : Text
  pub status : Text
  pub reason : Text
  pub message : Text
  pub last_transition_time : ℕ

-- The first argument is what `metav1.Now` returns.
abbrev pub is_ready_as : Text → Text → Text → Condition → Bool
is_ready_as status reason message c =
    c.kind == text "Ready" && c.status == status && c.reason == reason && c.message == message

abbrev pub transition : ℕ → Text → Text → Text → List Condition → ℕ
transition now status reason message [] = now
transition now status reason message (c ∷ []) =
    if is_ready_as status reason message c then c.last_transition_time else now
transition now status reason message (c ∷ d ∷ cs) = now

unfoldable pub ready_condition : ℕ → List Condition → Text → Text → Text → List Condition
ready_condition now existing status reason message =
    record {
      kind = text "Ready";
      status = status;
      reason = reason;
      message = message;
      last_transition_time = transition now status reason message existing;
    }
    ∷ []

-- A second pass with the same outcome leaves the condition as it is.
pub ready_condition_again :
    (now later : ℕ) (existing : List Condition) (status reason message : Text)
    → ready_condition later
        (ready_condition now existing status reason message)
        status
        reason
        message
      ≡ ready_condition now existing status reason message
unfolding ready_condition
ready_condition_again now later existing status reason message =
    rw (eq_refl (text "Ready"), eq_refl status, eq_refl reason, eq_refl message)
