-- ===== src/Frontend/Widgets.antt =====
-- next-frontend/components/auth/terms-checkbox.tsx and
-- next-frontend/components/auth/password-visibility-toggle.tsx in the signup form
-- (next-frontend/components/auth/signup-form.tsx).
use videum_video_platform.Common.{
  ℕ, suc, zero, ◌≡◌, refl, Bool, false, not, Option, none, some, is_some, if◌then◌else◌,
}
use videum_video_platform.Frontend.Signup.{SignupState}

-- The argument of `onCheckedChange`.
pub data CheckedState : Type 0 where
  boolean_state : Bool → CheckedState
  indeterminate : CheckedState

-- `value === true`
abbrev pub is_true : CheckedState → Bool
is_true (boolean_state b) = b
is_true indeterminate = false

-- `isChecked` of `TermsCheckbox`, by the property `checked` and the local state.
abbrev pub is_checked : Option Bool → Bool → Bool
is_checked none local_checked = local_checked
is_checked (some checked) local_checked = checked

-- `handleCheckedChange`: the new local state, and what `onCheckedChange` is told.
unfoldable pub handle_checked_change : Option Bool → CheckedState → Bool → Bool × Bool
handle_checked_change checked value local_checked =
    let next = is_true value in (if is_some checked then local_checked else next, next)

-- `handleToggle` of `PasswordVisibilityToggle`: the new state, and whether the input's type is told to
-- be `text`.
unfoldable pub handle_toggle : Bool → Bool × Bool
handle_toggle visible = let next = not visible in (next, next)

-- The checkbox in the form, which gives it the value of the field and takes what it tells.
unfoldable pub change_terms : CheckedState → SignupState × Bool → SignupState × Bool
unfolding handle_checked_change
change_terms value (st, local_checked) =
    let (local', told) = handle_checked_change (some st.values.terms) value local_checked in
    (record st { values = record st.values { terms = told } }, local')

-- The toggle beside the password.
unfoldable pub toggle_password : SignupState × Bool → SignupState × Bool
unfolding handle_toggle
toggle_password (st, visible) =
    let (visible', told) = handle_toggle visible in (record st { shows_password = told }, visible')

unfoldable pub toggle_times : ℕ → SignupState × Bool → SignupState × Bool
toggle_times zero s = s
toggle_times (suc n) s = toggle_times n (toggle_password s)

-- However often it is pressed, the toggle shows what the input of the form does.
pub toggle_times-agrees :
    (n : ℕ) (st : SignupState) (visible : Bool)
    → st.shows_password ≡ visible
    → (toggle_times n (st, visible)).0.shows_password ≡ (toggle_times n (st, visible)).1
unfolding toggle_times toggle_password
toggle_times-agrees zero st visible same = same
toggle_times-agrees (suc n) st visible same = toggle_times-agrees n _ (not visible) refl

-- The checkbox of the form shows the field's value, and only a value of `true` sets it.
pub is_checked-change_terms :
    (value : CheckedState) (st : SignupState) (local_checked : Bool)
    → is_checked
        (some (change_terms value (st, local_checked)).0.values.terms)
        (change_terms value (st, local_checked)).1
      ≡ is_true value
unfolding change_terms handle_checked_change
is_checked-change_terms value st local_checked = refl
