-- ===== src/Control/Tracker.antt =====
-- The attempt tracker of core/control/connect.go, with the snapshots of protocol.go.
use tenebra.Prelude.{
  ℕ, suc, Bool, not, ◌&&◌, Option, none, some, List, [], ◌∷◌, Text, codes, text_eq, if◌then◌else◌,
  any,
}
use tenebra.Fallback.LastGood.{LastGood}
use tenebra.Fallback.Machine.{Attempt, Machine, remembered}
use tenebra.Fallback.Classify.{censored, class_name}
use tenebra.Fallback.Strategy.{Strategy, is_default}
use tenebra.Model.{Protocol}

-- AttemptWaiting, AttemptTrying, AttemptBlocked, AttemptOK.
pub data Progress : Type 0 where
  waiting trying blocked succeeded : Progress

-- The outcomes of a walk.
pub data Outcome : Type 0 where
  pending connected exhausted : Outcome

pub record Item : Type 0 where
  pub seq : ℕ
  pub protocol : Protocol
  pub node : Text
  pub progress : Progress
  pub last_good : Bool
  pub strategy : Text
  pub reason : Text

pub record Snapshot : Type 0 where
  pub items : List Item
  pub outcome : Outcome

is_last_good : Option Text → Text → Bool
is_last_good none id = text_eq id (codes "")
is_last_good (some good) id = text_eq id good

-- The loop of `newAttemptTracker`.
unfoldable pub items_of : Option Text → ℕ → List Attempt → List Item
unfolding is_last_good
items_of good n [] = []
items_of good n (a ∷ as') =
    record {
      seq = suc n;
      protocol = a.node.protocol;
      node = a.node_id;
      progress = waiting;
      last_good = is_last_good good a.node_id;
      strategy = codes "";
      reason = codes "";
    }
    ∷ items_of good (suc n) as'

-- `newAttemptTracker`.
unfoldable pub new_attempt_tracker : {S : Type 0} ⦃lg : LastGood S⦄ → Machine S → List Item
unfolding items_of
new_attempt_tracker m = items_of (remembered m.last_good m.profile_id) 0 m.order

-- A change of the item at `byNodeID`: the last one with the ID.
unfoldable pub at_node : Text → (Item → Item) → List Item → List Item
at_node id f [] = []
at_node id f (i ∷ is) =
    let rest = at_node id f is in
    if text_eq i.node id && not (any (λ (j : Item). text_eq j.node id) is)
    then f i ∷ is
    else i ∷ rest

abbrev pub mark_trying : Item → Item
mark_trying i = record i { progress = trying }

abbrev pub mark_escalating : Strategy → Item → Item
mark_escalating strat i = record i {
  progress = trying;
  strategy = strat.name;
  reason = class_name censored;
}

abbrev pub mark_blocked : Text → Item → Item
mark_blocked reason i = record i {
  progress = blocked;
  reason = if text_eq reason (codes "") then i.reason else reason;
}

abbrev pub mark_succeeded : Strategy → Item → Item
mark_succeeded strat i = record i {
  progress = succeeded;
  reason = codes "";
  strategy = if is_default strat then i.strategy else strat.name;
}
