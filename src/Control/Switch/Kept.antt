-- ===== src/Control/Switch/Kept.antt =====
-- The exit that the daemon names and the one that the tunnel uses, over a live switch of
-- core/control/hotswitch.go.
use tenebra.Prelude.{
  guarded, neither, not-false, if-ind, Bool, true, false, not, ◌||◌, Option, none, some,
  Option-cases, some_inj, List, Text, text_eq, lookup, ◌≡◌, ◌⊎◌, refl, sym, ap, ◌∙◌, inl, inr,
}
use tenebra.Profile.{Profile}
use tenebra.Protection.Guard.{State}
use tenebra.Singbox.Validate.{is_empty}
use tenebra.Control.Tags.{tag_for, or_empty}
use tenebra.Control.State.{up}
use tenebra.Control.Switch.{
  LiveConfig, has_member, Line, Steered, steered, refused, lost, Steering, Target, Switched, is_up,
  confirm_switch, target_in, steer, live_switch_target, point, take_back, commit_switch,
  switch_node, is_steered,
}

-- The selector is on the tag of the node that the state names.
pub record Names (w : Line) : Type 0 where
  pub config : LiveConfig
  pub live : w.live ≡ some config
  pub tag : lookup w.status.node config.tag_of ≡ some w.selected
  pub named : is_empty w.selected ≡ false

-- Where a target comes from.
pub record Steerable (w : Line) (profile_id node_id : Text) (t : Target) : Type 0 where
  pub config : LiveConfig
  pub live : w.live ≡ some config
  pub tag : t.tag ≡ tag_for config.tag_of node_id
  pub named : is_empty t.tag ≡ false
  pub member : has_member config t.tag ≡ true
  pub prev : t.prev_tag ≡ tag_for config.tag_of w.status.node
  pub other : text_eq node_id w.status.node ≡ false

target_in-Steerable :
    (w : Line) (p id : Text) (c : LiveConfig) (t : Target)
    → w.live ≡ some c
    → target_in w p id (some c) ≡ some t
    → Steerable w p id t
unfolding target_in
target_in-Steerable w p id c t l e =
    let tag = tag_for c.tag_of id in
    let g1 = guarded (not (is_up w.status.phase)) _ t e in
    let g2 = guarded _ _ t g1.1 in
    let g3 = guarded (is_empty id || text_eq id w.status.node) _ t g2.1 in
    let g4 = guarded (is_empty tag || not (has_member c tag)) _ t g3.1 in
    let same = some_inj g4.1 in
    rw⁻¹ same (record {
      config = c;
      live = l;
      tag = refl;
      named = (neither (is_empty tag) (not (has_member c tag)) g4.0).0;
      member =
          not-false (has_member c tag) (neither (is_empty tag) (not (has_member c tag)) g4.0).1;
      prev = refl;
      other = (neither (is_empty id) (text_eq id w.status.node) g3.0).1;
    })

pub live_switch_target-Steerable :
    (w : Line) (profile_id node_id : Text) (t : Target)
    → live_switch_target w profile_id node_id ≡ some t
    → Steerable w profile_id node_id t
unfolding live_switch_target
live_switch_target-Steerable w profile_id node_id t e = elim (Option-cases w.live) [
  | inl n ↦ cc (rw n at e)
  | inr (c, l) ↦ target_in-Steerable w profile_id node_id c t l (rw l at e)
]

-- The answers to a switch, as a process gives them that is reached: a `Select` that returns an error
-- has not been served, and the one that takes a switch back returns none.
abbrev pub IsHonest : Steering → Type 0
IsHonest a = (a.put ≡ lost → ⊥) × (a.undo ≡ steered)

-- What comes of a switch to a node: it took, and then the tunnel carries traffic through it and the
-- state names it, or it did not, and then nothing has changed.
abbrev pub Kept : Steering → Text → Text → Line → Switched → Type 0
Kept a profile_id node_id w r =
    ((r.took ≡ true)
      × (confirm_switch a.probes ≡ true)
      × (r.line.status.phase ≡ up)
      × (r.line.status.profile ≡ profile_id)
      × (r.line.status.node ≡ node_id)
      × Names r.line)
    ⊎ ((r.took ≡ false) × (r.line ≡ w))

unsteered :
    (s : Steered) (tag : Text) (w : Line)
    → (s ≡ lost → ⊥)
    → not (is_steered s) ≡ true
    → point s tag w ≡ w
unfolding point
unsteered steered tag w h e = cc
unsteered refused tag w h e = refl
unsteered lost tag w h e = absurd (h refl)

on_tag :
    (s : Steered) (tag : Text) (w : Line)
    → not (is_steered s) ≡ false
    → point s tag w ≡ record w { selected = tag }
unfolding point
on_tag steered tag w e = refl
on_tag refused tag w e = cc
on_tag lost tag w e = cc

or_empty-some : (o : Option Text) → is_empty (or_empty o) ≡ false → o ≡ some (or_empty o)
unfolding or_empty text_eq
or_empty-some none e = cc
or_empty-some (some t) e = refl

tag_for-lookup :
    (m : List (Text × Text)) (id : Text)
    → is_empty (tag_for m id) ≡ false
    → lookup id m ≡ some (tag_for m id)
unfolding tag_for
tag_for-lookup m id e = or_empty-some (lookup id m) e

-- The tag that the selector is put back on is the one that it was on.
prev_lem :
    (w : Line) (p id : Text) (t : Target) → Names w → Steerable w p id t → t.prev_tag ≡ w.selected
unfolding tag_for or_empty
prev_lem w p id t n s =
    let same : s.config ≡ n.config = some_inj (sym s.live ∙ n.live) in
    s.prev ∙ ap (λ c. tag_for c.tag_of w.status.node) same ∙ ap or_empty n.tag

take_back_self :
    (w : Line) (tag prev : Text)
    → prev ≡ w.selected
    → is_empty w.selected ≡ false
    → take_back steered prev (record w { selected = tag }) ≡ w
unfolding take_back point
take_back_self w tag prev e n = rw (e, n) refl

module _ (a : Steering) (stored : Option Profile) (protection : State) (p id : Text)
    (remember : Bool) where
  commit_switch-Names :
      (w : Line) (c : LiveConfig)
      → w.live ≡ some c
      → lookup id c.tag_of ≡ some w.selected
      → is_empty w.selected ≡ false
      → Names (commit_switch stored protection p id remember w)
  unfolding commit_switch
  commit_switch-Names w c l t n = record { config = c; live = l; tag = t; named = n }

  steer-Kept :
      (w : Line) (t : Target)
      → Names w
      → IsHonest a
      → Steerable w p id t
      → Kept a p id w (steer a stored protection p id remember w t)
  unfolding steer
  steer-Kept w t n h s =
      if-ind (λ (r : Switched). Kept a p id w r) (not (is_steered a.put)) _ _
        (λ e. inr (refl, unsteered a.put t.tag w h.0 e))
        (λ e. rw (on_tag a.put t.tag w e) (
          if-ind (λ (r : Switched). Kept a p id w r) (not (confirm_switch a.probes)) _ _
            (λ f.
              inr
                (refl, rw h.1 (take_back_self w t.tag t.prev_tag (prev_lem w p id t n s) n.named)))
            (λ f. inl (
              refl,
              not-false (confirm_switch a.probes) f,
              unfold commit_switch in refl,
              unfold commit_switch in refl,
              unfold commit_switch in refl,
              commit_switch-Names (record w { selected = t.tag }) s.config s.live
                  (rw s.tag (tag_for-lookup s.config.tag_of id (rw s.tag at s.named))) s.named,
            ))))

-- Where the state names the exit that the selector is on, and the process answers as `IsHonest`
-- says, a live switch either takes, and then a probe has gone through, the tunnel is up, the state
-- names the node that was asked for, and the selector is on its tag; or it changes nothing.
pub switch_node-Kept :
    (a : Steering) (stored : Option Profile) (protection : State) (p id : Text) (remember : Bool)
    (w : Line)
    → Names w
    → IsHonest a
    → Kept a p id w (switch_node a stored protection p id remember w)
unfolding switch_node
switch_node-Kept a stored protection p id remember w n h =
    elim (Option-cases (live_switch_target w p id)) [
      | inl e ↦ rw e (inr (refl, refl))
      | inr (t, e) ↦ rw e (
          steer-Kept a stored protection p id remember w t n h
            (live_switch_target-Steerable w p id t e))
    ]
