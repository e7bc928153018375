-- ===== src/Advance/Status.antt =====
-- About `_set_status` of executing/advance.py, on the tracker that it writes to.
use specseed.Prelude.{ℕ, String, ◌≡◌, ◌≢◌, ◌↔◌, refl, ◌∙◌, inl, inr, ◌⊎◌, true, some, In}
use specseed.Entities.{Entity, tier, status_from_labels, is_work_tier}
use specseed.Tracker.{Store}
use specseed.Tracker.Labels.{Stored, Labelled}
use specseed.Tracker.Writes.{
  add_entry_label-own, add_entry_label-added, add_entry_label-after, add_entry_label-Stored,
}
use specseed.Tracker.Order.{labels_for_entry-Labelled, Labelled-labels_for_entry}
use specseed.Tracker.Read.{get_entry, details_from_row, summary_from_row, labels_for_entry}
use specseed.Advance.Writes.{
  Ctx, World, names_status, remove_statuses, swap_status, status_label, set_status, remote_status,
}
use specseed.Advance.Names.{own_label, own_status, status_from_labels_unique}
use specseed.Advance.Removal.{
  remove_statuses-Stored, remove_statuses-before, remove_statuses-gone, remove_statuses-others,
}

module _ (ctx : Ctx) (entity : Entity) (st : String) (w : World) (k : ℕ) where
  abbrev label : String
  label = status_label (tier entity) st

  -- what is on the tracker after the loop
  abbrev removed : Store
  removed = remove_statuses ctx.now entity.post_id entity.labels w.remote

  set_status-own :
      (j : ℕ) (m : String)
      → Stored entity.post_id k w.remote
      → Labelled j m (set_status ctx entity st w).remote
      → Labelled j m removed ⊎ ((j ≡ k) × (m ≡ label))
  unfolding set_status swap_status
  set_status-own j m h =
      add_entry_label-own ctx.now entity.post_id k label removed
        (remove_statuses-Stored ctx.now entity.post_id k entity.labels w.remote h) j m

  pub set_status-Stored :
      Stored entity.post_id k w.remote → Stored entity.post_id k (set_status ctx entity st w).remote
  unfolding set_status swap_status
  set_status-Stored h =
      add_entry_label-Stored ctx.now entity.post_id k label removed
        (remove_statuses-Stored ctx.now entity.post_id k entity.labels w.remote h)

  set_status-added :
      (t : String)
      → tier entity ≡ some t
      → is_work_tier t ≡ true
      → Stored entity.post_id k w.remote
      → Labelled k (status_label (some t) st) (set_status ctx entity st w).remote
  unfolding set_status swap_status
  set_status-added t e h p = rw e (
      add_entry_label-added ctx.now entity.post_id k (status_label (some t) st) removed
        (remove_statuses-Stored ctx.now entity.post_id k entity.labels w.remote p)
        (own_label t st h).1)

  set_status-others :
      (j : ℕ) (m : String)
      → Stored entity.post_id k w.remote
      → j ≢ k
      → Labelled j m w.remote
      → Labelled j m (set_status ctx entity st w).remote
  unfolding set_status swap_status
  set_status-others j m p other h =
      add_entry_label-after ctx.now entity.post_id k label removed j m
        (remove_statuses-others ctx.now entity.post_id k entity.labels w.remote j m p other h)

-- the snapshot misses no status label that the tracker has
abbrev pub Current : Entity → ℕ → World → Type 0
Current entity k w =
    (m : String) → Labelled k m w.remote → names_status m ≡ true → In m entity.labels

pub status-get_entry :
    (id : String) (k : ℕ) (w : World)
    → Stored id k w.remote
    → remote_status id w ≡ status_from_labels (labels_for_entry k w.remote)
unfolding remote_status get_entry details_from_row summary_from_row
status-get_entry id k w (r, e, q) = rw (get_entry, e, q) refl

-- the post carries this status label and no other
abbrev pub Sole : ℕ → String → World → Type 0
Sole k l w =
    Labelled k l w.remote × ((m : String) → Labelled k m w.remote → names_status m ≡ true → m ≡ l)

-- such a label is read as the status
pub Sole-status :
    (id : String) (k : ℕ) (t st : String) (w : World)
    → Stored id k w.remote
    → is_work_tier t ≡ true
    → Sole k (status_label (some t) st) w
    → remote_status id w ≡ some st
Sole-status id k t st w p h (l, only) =
    status-get_entry id k w p
    ∙ status_from_labels_unique (status_label (some t) st) st (labels_for_entry k w.remote)
        (λ rest. own_status t st rest h)
        (λ m i n. only m (labels_for_entry-Labelled k m w.remote i) n) (own_label t st h).0
        (Labelled-labels_for_entry k (status_label (some t) st) w.remote l)

pub set_status-Sole :
    (ctx : Ctx) (entity : Entity) (st t : String) (w : World) (k : ℕ)
    → Stored entity.post_id k w.remote
    → tier entity ≡ some t
    → is_work_tier t ≡ true
    → Current entity k w
    → Sole k (status_label (some t) st) (set_status ctx entity st w)
set_status-Sole ctx entity st t w k p e h known = (
  set_status-added ctx entity st w k t e h p,
  λ m g n. old m n (set_status-own ctx entity st w k k m p g),
)
  where
    old :
        (m : String)
        → names_status m ≡ true
        → Labelled k m (removed ctx entity st w k) ⊎ ((k ≡ k) × (m ≡ status_label (tier entity) st))
        → m ≡ status_label (some t) st
    old m n (inl g) = absurd (
        remove_statuses-gone ctx.now entity.post_id k entity.labels w.remote m p
          (known m (remove_statuses-before ctx.now entity.post_id k entity.labels w.remote k m g) n)
          n g)
    old m n (inr q) = rw (← e) (q.1)

-- Where the post is on the tracker, the work item is an epic, a ticket or an issue, and its snapshot
-- misses no status label that the post has, the status that is read of the post after a change of
-- status is the new one. The labels of every other post are as before.
pub set_status_lem :
    (ctx : Ctx) (entity : Entity) (st t : String) (w : World) (k : ℕ)
    → Stored entity.post_id k w.remote
    → tier entity ≡ some t
    → is_work_tier t ≡ true
    → Current entity k w
    → (remote_status entity.post_id (set_status ctx entity st w) ≡ some st)
      × ((j : ℕ) (m : String)
          → j ≢ k
          → Labelled j m (set_status ctx entity st w).remote ↔ Labelled j m w.remote)
set_status_lem ctx entity st t w k p e h known = (
  Sole-status entity.post_id k t st (set_status ctx entity st w)
      (set_status-Stored ctx entity st w k p) h (set_status-Sole ctx entity st t w k p e h known),
  λ j m other. (back j m other, forth j m other),
)
  where
    forth :
        (j : ℕ) (m : String)
        → j ≢ k
        → Labelled j m w.remote
        → Labelled j m (set_status ctx entity st w).remote
    forth j m other = set_status-others ctx entity st w k j m p other

    back :
        (j : ℕ) (m : String)
        → j ≢ k
        → Labelled j m (set_status ctx entity st w).remote
        → Labelled j m w.remote
    back j m other g = elim (set_status-own ctx entity st w k j m p g) [
      | inl i ↦ remove_statuses-before ctx.now entity.post_id k entity.labels w.remote j m i
      | inr q ↦ absurd (other (q.0))
    ]
