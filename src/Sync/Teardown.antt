-- ===== src/Sync/Teardown.antt =====
-- Closing or deleting an entry: its pending rows go, its rows in progress stay and are told to stop.
use Prim.Native.String
use specseed.Prelude.{
  ℕ, ◌<◌, ◌≡◌, refl, sym, ap, ◌∙◌, inl, inr, ◌⊎◌, String, Bool, true, false, ◌&&◌, ◌||◌, not, List,
  [], ◌∷◌, arith, In, In-keep, keep-In, keep, keep-keep, keep_cong, keep_all, ◌==◌, ==_refl,
  Bool-cases, find?,
}
use specseed.Queue.{Db, Task, remove, post_is, status_eq, pending, in_progress}
use specseed.Queue.Rows.{Ids-In, other_than, has_id, find?-In}
use specseed.Queue.Invariant.{IsWellFormed, remove-IsWellFormed}
use specseed.Cancellation.{Registry, is_cancelled}
use specseed.Sync.{World, teardown_post, teardown_rows, drop_pending, interrupt_rows}
use specseed.Sync.Supersede.{hit}
use specseed.Sync.Gather.{teardown_rows-own, teardown_rows-In}
use specseed.Sync.Interrupt.{interrupt-grows, interrupt-In, interrupt-cancels}

abbrev is_pending : Task → Bool
is_pending t = status_eq t.status pending

one_more :
    (r t : Task) (rest : Bool)
    → (other_than r.task_id t && not rest) ≡ not (true && r.task_id == t.task_id || rest)
one_more r t rest = ground arith

drop_pending-tasks :
    (rows : List Task) (db : Db)
    → (drop_pending rows db).1.tasks ≡ keep (λ t. not (hit is_pending rows t)) db.tasks
unfolding drop_pending hit
drop_pending-tasks [] db = sym (keep_all (λ t. true) db.tasks (λ t. refl))
drop_pending-tasks (r ∷ rows) db = elim (Bool-cases (is_pending r)) [
  | inl e ↦ rw e (
      drop_pending-tasks rows (remove r.task_id db)
      ∙ unfold remove in
        keep-keep (λ t. not (hit is_pending rows t)) (other_than r.task_id) db.tasks
        ∙ keep_cong _ _ db.tasks (λ t _. one_more r t (hit is_pending rows t)))
  | inr e ↦ rw e (drop_pending-tasks rows db)
]

pub drop_pending-IsWellFormed :
    (rows : List Task) (db : Db) → IsWellFormed db → IsWellFormed (drop_pending rows db).1
unfolding drop_pending
drop_pending-IsWellFormed [] db w = w
drop_pending-IsWellFormed (r ∷ rows) db w = elim (Bool-cases (is_pending r)) [
  | inl e ↦
      rw e
        (drop_pending-IsWellFormed rows (remove r.task_id db) (remove-IsWellFormed db w r.task_id))
  | inr e ↦ rw e (drop_pending-IsWellFormed rows db w)
]

hit-own :
    (p : Task → Bool) (rows : List Task) (t : Task) → In t rows → p t ≡ true → hit p rows t ≡ true
unfolding hit
hit-own p [] t m e = elim m [ ]
hit-own p (r ∷ rows) t (inl q) e = rw (← q, e, ==_refl t.task_id)
hit-own p (r ∷ rows) t (inr m) e = ground (arith, hit-own p rows t m e)

hit_witness :
    (p : Task → Bool) (rows : List Task) (t : Task)
    → hit p rows t ≡ true
    → (r : Task) × In r rows × (p r ≡ true) × (r.task_id ≡ t.task_id)
unfolding hit
hit_witness p [] t h = cc
hit_witness p (r ∷ rows) t h = elim (Bool-cases (p r && r.task_id == t.task_id)) [
  | inl e ↦ (r, inl refl, ground arith, ground arith)
  | inr e ↦ let (q, m, a, b) = hit_witness p rows t (rw e at h) in (q, inr m, a, b)
]

same_row :
    (db : Db)
    → IsWellFormed db
    → (a b : Task) → In a db.tasks
    → In b db.tasks
    → a.task_id ≡ b.task_id
    → a ≡ b
same_row db w a b m n e = cc (
  find?-In 0 db.seq db.tasks a w.ids m,
  find?-In 0 db.seq db.tasks b w.ids n,
  ap (λ id. find? (has_id id) db.tasks) e,
)

drop_pending-seq : (rows : List Task) (db : Db) → (drop_pending rows db).1.seq ≡ db.seq
unfolding drop_pending remove
drop_pending-seq [] db = refl
drop_pending-seq (r ∷ rows) db = elim (Bool-cases (is_pending r)) [
  | inl e ↦ rw e (drop_pending-seq rows (remove r.task_id db))
  | inr e ↦ rw e (drop_pending-seq rows db)
]

-- a row that is not pending is not removed
spared :
    (db : Db)
    → IsWellFormed db
    → (rows : List Task) → ((x : Task) → In x rows → In x db.tasks)
    → (r : Task) → In r db.tasks
    → is_pending r ≡ false
    → hit is_pending rows r ≡ false
spared db w rows h r m e = elim (Bool-cases (hit is_pending rows r)) [
  | inl t ↦
      let (x, n, p, q) = hit_witness is_pending rows r t in
      absurd (cc (e, p, same_row db w x r (h x n) m q))
  | inr t ↦ t
]

abbrev interrupted_after : ℕ → (String → List String) → String → String → World → ℕ × Db × Registry
interrupted_after now comments_of post action w =
    let rows = teardown_rows post (comments_of post) w.db in
    interrupt_rows now post (String.◌++◌ "entry_" action) rows
      ((drop_pending rows w.db).1, w.registry)

-- all that holds of a row of the tables before
teardown_post_lem :
    (now : ℕ) (comments_of : String → List String) (post action : String) (w : World)
    → IsWellFormed w.db
    → (r : Task) → In r w.db.tasks
    → (In r (teardown_post now comments_of post action w).db.tasks
        → post_is post r ≡ true
        → is_pending r ≡ false)
      × (is_pending r ≡ false → In r (teardown_post now comments_of post action w).db.tasks)
      × (post_is post r ≡ true
          → status_eq r.status in_progress ≡ true
          → is_cancelled r.task_id (teardown_post now comments_of post action w).registry ≡ true)
unfolding teardown_post
teardown_post_lem now comments_of post action w wf r m = (gone, left, stopped)
  where
    rows : List Task
    rows = teardown_rows post (comments_of post) w.db

    known : (x : Task) → In x rows → In x w.db.tasks
    known x n = teardown_rows-In post (comments_of post) w.db x n

    old :
        In r (drop_pending rows w.db).1.tasks ⊎ ((drop_pending rows w.db).1.seq < r.task_id)
        → In r (drop_pending rows w.db).1.tasks
    old (inl a) = a
    old (inr b) = absurd (
        omega
          (arith, Ids-In 0 w.db.seq w.db.tasks r wf.ids m, rw (drop_pending-seq rows w.db) at b))

    survivor :
        In r (interrupted_after now comments_of post action w).1.tasks
        → hit is_pending rows r ≡ false
    survivor h =
        let a = old (interrupt-In now post _ rows (drop_pending rows w.db).1 w.registry r h) in
        ground (arith, (In-keep _ r w.db.tasks (rw (drop_pending-tasks rows w.db) at a)).1)

    gone :
        In r (interrupted_after now comments_of post action w).1.tasks
        → post_is post r ≡ true
        → is_pending r ≡ false
    gone h o = elim (Bool-cases (is_pending r)) [
      | inl p ↦ absurd (
          cc (
            hit-own is_pending rows r (teardown_rows-own w.db wf post (comments_of post) r m o) p,
            survivor h,
          ))
      | inr p ↦ p
    ]

    left : is_pending r ≡ false → In r (interrupted_after now comments_of post action w).1.tasks
    left e = interrupt-grows now post _ rows (drop_pending rows w.db).1 w.registry r (
        rw (drop_pending-tasks rows w.db)
          (keep-In _ r w.db.tasks m (rw (spared w.db wf rows known r m e))))

    stopped :
        post_is post r ≡ true
        → status_eq r.status in_progress ≡ true
        → is_cancelled r.task_id (interrupted_after now comments_of post action w).2 ≡ true
    stopped o h =
        interrupt-cancels now post _ rows (drop_pending rows w.db).1 w.registry r
          (teardown_rows-own w.db wf post (comments_of post) r m o) h

-- On well-formed tables, no pending row of an entry is left when the entry is closed or deleted:
-- a row of the entry that was there before and is there still is not pending.
pub teardown_post-gone :
    (now : ℕ) (comments_of : String → List String) (post action : String) (w : World)
    → IsWellFormed w.db
    → (r : Task) → In r w.db.tasks
    → In r (teardown_post now comments_of post action w).db.tasks
    → post_is post r ≡ true
    → status_eq r.status pending ≡ false
teardown_post-gone now comments_of post action w wf r m =
    (teardown_post_lem now comments_of post action w wf r m).0

-- On well-formed tables, a row that is not pending, of this entry or another, is left as it is
-- when an entry is closed or deleted.
pub teardown_post-kept :
    (now : ℕ) (comments_of : String → List String) (post action : String) (w : World)
    → IsWellFormed w.db
    → (r : Task) → In r w.db.tasks
    → status_eq r.status pending ≡ false
    → In r (teardown_post now comments_of post action w).db.tasks
teardown_post-kept now comments_of post action w wf r m =
    (teardown_post_lem now comments_of post action w wf r m).1

-- On well-formed tables, every row of an entry that is in progress is cancelled when the entry is
-- closed or deleted.
pub teardown_post-cancels :
    (now : ℕ) (comments_of : String → List String) (post action : String) (w : World)
    → IsWellFormed w.db
    → (r : Task) → In r w.db.tasks
    → post_is post r ≡ true
    → status_eq r.status in_progress ≡ true
    → is_cancelled r.task_id (teardown_post now comments_of post action w).registry ≡ true
teardown_post-cancels now comments_of post action w wf r m =
    (teardown_post_lem now comments_of post action w wf r m).2
