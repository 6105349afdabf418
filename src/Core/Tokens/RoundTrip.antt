-- ===== src/Core/Tokens/RoundTrip.antt =====
-- Tokens of the closed vocabularies of crates/schema-forge-core/src/types, printed and parsed.
use schemaforge.Prelude.{
  arith, String, List, [], ◌∷◌, ◌≡◌, ◌↔◌, true, ◌∙◌, ap, refl, some, eq_iff, ◌==◌, All, Bool-cases,
  inl, inr,
}
use schemaforge.Core.Constraints.{FileAccess}
use schemaforge.Core.Tokens.Match.{find_arm}
use schemaforge.Core.Tokens.Display.{
  WidgetType, widget_as_str, widget_arms, widget_from_str, FormatType, format_as_str, format_arms,
  format_from_str, EnumColor, color_as_str, color_arms, color_from_str, ListHint, list_hint_as_str,
  list_hint_arms, list_hint_from_str,
}
use schemaforge.Core.Tokens.Lifecycle.{
  HookEvent, hook_as_str, hook_arms, hook_from_str, FileStatus, status_as_str, status_arms,
  status_from_str, access_as_str, access_arms, access_from_str,
}

find_arm-head :
    {A : Type 0} (s t : String) (y x : A) (arms : List (String × A))
    → (s == t) ≡ true
    → find_arm s ((t, y) ∷ arms) ≡ some x
    → y ≡ x
unfolding find_arm
find_arm-head s t y x arms e h = ground arith

find_arm_inv :
    {A : Type 0} (as_str : A → String) (s : String) (arms : List (String × A)) (x : A)
    → All (λ arm. arm.0 ≡ as_str arm.1) arms
    → find_arm s arms ≡ some x
    → s ≡ as_str x
unfolding find_arm
find_arm_inv as_str s [] x good h = cc
find_arm_inv as_str s ((t, y) ∷ arms) x good h = elim (Bool-cases (s == t)) [
  | inl e ↦ (eq_iff s t).0 e ∙ good.0 ∙ ap as_str (find_arm-head s t y x arms e h)
  | inr e ↦ find_arm_inv as_str s arms x good.1 (rw e at h)
]

widget_from_str-widget_as_str : (x : WidgetType) → widget_from_str (widget_as_str x) ≡ some x
unfolding widget_from_str
widget_from_str-widget_as_str WidgetType.status_badge = refl
widget_from_str-widget_as_str _ = refl

-- A text parses to a widget exactly if it is the token that the widget prints as.
pub widget_from_str_iff :
    (s : String) (x : WidgetType) → (widget_from_str s ≡ some x) ↔ (s ≡ widget_as_str x)
unfolding widget_from_str
widget_from_str_iff s x = (
  find_arm_inv widget_as_str s widget_arms x (
    refl,
    (
      refl,
      (
        refl,
        (
          refl,
          (
            refl,
            (
              refl,
              (
                refl,
                (refl, (refl, (refl, (refl, (refl, (refl, (refl, (refl, (refl, (refl, tt)))))))))),
              ),
            ),
          ),
        ),
      ),
    ),
  ),
  λ e. rw e (widget_from_str-widget_as_str x),
)

format_from_str-format_as_str : (x : FormatType) → format_from_str (format_as_str x) ≡ some x
unfolding format_from_str
format_from_str-format_as_str FormatType.currency = refl
format_from_str-format_as_str _ = refl

-- A text parses to a format exactly if it is the token that the format prints as.
pub format_from_str_iff :
    (s : String) (x : FormatType) → (format_from_str s ≡ some x) ↔ (s ≡ format_as_str x)
unfolding format_from_str
format_from_str_iff s x = (
  find_arm_inv format_as_str s format_arms x
      (refl, (refl, (refl, (refl, (refl, (refl, (refl, tt))))))),
  λ e. rw e (format_from_str-format_as_str x),
)

color_from_str-color_as_str : (x : EnumColor) → color_from_str (color_as_str x) ≡ some x
unfolding color_from_str
color_from_str-color_as_str EnumColor.neutral = refl
color_from_str-color_as_str _ = refl

-- A text parses to a colour exactly if it is the token that the colour prints as.
pub color_from_str_iff :
    (s : String) (x : EnumColor) → (color_from_str s ≡ some x) ↔ (s ≡ color_as_str x)
unfolding color_from_str
color_from_str_iff s x = (
  find_arm_inv color_as_str s color_arms x
      (refl, (refl, (refl, (refl, (refl, (refl, (refl, (refl, (refl, (refl, tt)))))))))),
  λ e. rw e (color_from_str-color_as_str x),
)

list_hint_from_str-list_hint_as_str :
    (x : ListHint) → list_hint_from_str (list_hint_as_str x) ≡ some x
unfolding list_hint_from_str
list_hint_from_str-list_hint_as_str ListHint.primary = refl
list_hint_from_str-list_hint_as_str _ = refl

-- A text parses to a list hint exactly if it is the token that the list hint prints as.
pub list_hint_from_str_iff :
    (s : String) (x : ListHint) → (list_hint_from_str s ≡ some x) ↔ (s ≡ list_hint_as_str x)
unfolding list_hint_from_str
list_hint_from_str_iff s x = (
  find_arm_inv list_hint_as_str s list_hint_arms x (refl, (refl, (refl, tt))),
  λ e. rw e (list_hint_from_str-list_hint_as_str x),
)

hook_from_str-hook_as_str : (x : HookEvent) → hook_from_str (hook_as_str x) ≡ some x
unfolding hook_from_str
hook_from_str-hook_as_str HookEvent.before_validate = refl
hook_from_str-hook_as_str _ = refl

-- A text parses to a lifecycle event exactly if it is the token that the lifecycle event prints as.
pub hook_from_str_iff :
    (s : String) (x : HookEvent) → (hook_from_str s ≡ some x) ↔ (s ≡ hook_as_str x)
unfolding hook_from_str
hook_from_str_iff s x = (
  find_arm_inv hook_as_str s hook_arms x
      (refl, (refl, (refl, (refl, (refl, (refl, (refl, (refl, (refl, (refl, tt)))))))))),
  λ e. rw e (hook_from_str-hook_as_str x),
)

status_from_str-status_as_str : (x : FileStatus) → status_from_str (status_as_str x) ≡ some x
unfolding status_from_str
status_from_str-status_as_str FileStatus.pending = refl
status_from_str-status_as_str _ = refl

-- A text parses to a file state exactly if it is the token that the file state prints as.
pub status_from_str_iff :
    (s : String) (x : FileStatus) → (status_from_str s ≡ some x) ↔ (s ≡ status_as_str x)
unfolding status_from_str
status_from_str_iff s x = (
  find_arm_inv status_as_str s status_arms x (refl, (refl, (refl, (refl, (refl, (refl, tt)))))),
  λ e. rw e (status_from_str-status_as_str x),
)

access_from_str-access_as_str : (x : FileAccess) → access_from_str (access_as_str x) ≡ some x
unfolding access_from_str
access_from_str-access_as_str FileAccess.presigned = refl
access_from_str-access_as_str _ = refl

-- A text parses to a kind of file access exactly if it is the token that the kind of file access prints as.
pub access_from_str_iff :
    (s : String) (x : FileAccess) → (access_from_str s ≡ some x) ↔ (s ≡ access_as_str x)
unfolding access_from_str
access_from_str_iff s x = (
  find_arm_inv access_as_str s access_arms x (refl, (refl, tt)),
  λ e. rw e (access_from_str-access_as_str x),
)
