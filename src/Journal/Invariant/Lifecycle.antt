-- ===== src/Journal/Invariant/Lifecycle.antt =====
-- The life of a record, as a relation between statuses.
use malt.Base.{◌≡◌, ◌≢◌, ◌⊎◌, inl, refl, true, arith}
use malt.Journal.Types.{
  Status, Operation, local_dirty, offline_only, pending_upload, conflicted, completed, superseded,
}
use malt.Journal.Store.Locked.{allowed_status_transition}

infix 45 ◌⟶◌
pub data ◌⟶◌ : Status → Status → Type 0 where
  lose_connection : local_dirty ⟶ offline_only
  reconnect : offline_only ⟶ local_dirty
  freeze_dirty : local_dirty ⟶ pending_upload
  freeze_offline : offline_only ⟶ pending_upload
  dirty_conflict : local_dirty ⟶ conflicted
  offline_conflict : offline_only ⟶ conflicted
  pending_conflict : pending_upload ⟶ conflicted
  complete : pending_upload ⟶ completed
  supersede : conflicted ⟶ superseded

pub ruleset edges = (
  lose_connection, reconnect, freeze_dirty, freeze_offline, dirty_conflict, offline_conflict,
  pending_conflict, complete, supersede,
)

-- The identity and place of a record stay, and its status stays or takes one edge.
pub record Evolves (o p : Operation) : Type 0 where
  pub intent : p.intent ≡ o.intent
  pub sequence : p.sequence ≡ o.sequence
  pub created : p.created_at ≡ o.created_at
  pub status : (p.status ≡ o.status) ⊎ (o.status ⟶ p.status)

pub Evolves-refl : (o : Operation) → Evolves o o
Evolves-refl o = record { intent = refl; sequence = refl; created = refl; status = inl refl }

pub allowed-⟶ : (s t : Status) → allowed_status_transition s t ≡ true → s ⟶ t
unfolding allowed_status_transition
allowed-⟶ s t h = grind (arith, edges)

pub allowed-ne-superseded :
    (s t : Status) → allowed_status_transition s t ≡ true → (s ≢ superseded) × (t ≢ superseded)
unfolding allowed_status_transition
allowed-ne-superseded s t h = ground arith

-- completed and superseded records have no way on
pub terminal : {s t : Status} → s ⟶ t → (s ≢ completed) × (s ≢ superseded)
terminal lose_connection = ground arith
terminal _ = ground arith
