-- ===== src/Sync/Supersede.antt =====
-- About `supersede` of sync_to_db.py: the pending rows it replaces.
use specseed.Prelude.{
  ℕ, ◌<◌, ◌≡◌, refl, sym, ap, subst, ◌∙◌, inl, inr, ◌⊎◌, String, Bool, true, false, ◌&&◌, ◌||◌, not,
  Option, none, some, List, [], ◌∷◌, arith, In, any, keep, keep-keep, keep_cong, keep_all, ◌==◌,
  Bool-cases,
}
use specseed.Queue.{status_eq, pending, Db, Task, tasks_for, remove, post_is}
use specseed.Queue.Rows.{Ids, Ids-In, other_than}
use specseed.Queue.Invariant.{IsWellFormed, remove-IsWellFormed}
use specseed.Tasks.{key_eq, TaskSpec, Key, spec_key}
use specseed.Sync.{row_key, supersede, supersede_in, supersede_rows, replaces}

-- a row of the list that passes the test has this id
unfoldable pub hit : (Task → Bool) → List Task → Task → Bool
hit p rows t = any (λ r. p r && r.task_id == t.task_id) rows

one_more :
    (key : Key) (r t : Task) (rest : Bool)
    → (other_than r.task_id t && not rest) ≡ not (true && r.task_id == t.task_id || rest)
one_more key r t rest = ground arith

supersede_rows-tasks :
    (key : Key) (rows : List Task) (db : Db)
    → (supersede_rows key rows db).1.tasks ≡ keep (λ t. not (hit (replaces key) rows t)) db.tasks
unfolding supersede_rows hit
supersede_rows-tasks key [] db = sym (keep_all (λ t. true) db.tasks (λ t. refl))
supersede_rows-tasks key (r ∷ rows) db = elim (Bool-cases (replaces key r)) [
  | inl e ↦ rw e (
      supersede_rows-tasks key rows (remove r.task_id db)
      ∙ unfold remove in
        keep-keep (λ t. not (hit (replaces key) rows t)) (other_than r.task_id) db.tasks
        ∙ keep_cong _ _ db.tasks (λ t _. one_more key r t (hit (replaces key) rows t)))
  | inr e ↦ rw e (supersede_rows-tasks key rows db)
]

-- with unique ids, a row has the id of a row that passes exactly if it passes
hit_above :
    (p : Task → Bool) (lo hi : ℕ) (ts : List Task) (t : Task)
    → Ids lo hi ts
    → (t.task_id ≡ lo) ⊎ (t.task_id < lo)
    → hit p ts t ≡ false
unfolding hit
hit_above p lo hi [] t h l = refl
hit_above p lo hi (x ∷ ts) t h l =
    ground (arith, hit_above p x.task_id hi ts t h.1 (inr (omega arith)))

pub hit-In :
    (p : Task → Bool) (lo hi : ℕ) (ts : List Task) (t : Task)
    → Ids lo hi ts
    → In t ts
    → hit p ts t ≡ p t
unfolding hit
hit-In p lo hi [] t h m = elim m [ ]
hit-In p lo hi (x ∷ ts) t h (inl e) = subst (λ u. hit p (x ∷ ts) u ≡ p u) (sym e) (own (p x))
  where
    own : (b : Bool) → (b && x.task_id == x.task_id || hit p ts x) ≡ b
    own b = ground (arith, hit_above p x.task_id hi ts x h.1 (inl refl))
hit-In p lo hi (x ∷ ts) t h (inr m) =
    ground (arith, Ids-In x.task_id hi ts t h.1 m, hit-In p x.task_id hi ts t h.1 m)

pub hit-keep :
    (p q : Task → Bool) (ts : List Task) (t : Task)
    → hit p (keep q ts) t ≡ hit (λ r. q r && p r) ts t
unfolding hit
hit-keep p q [] t = refl
hit-keep p q (x ∷ ts) t = ground (arith, hit-keep p q ts t)

-- the rows that a task of a post replaces
abbrev pub doomed : String → Key → Task → Bool
doomed post key r = post_is post r && (status_eq r.status pending && key_eq (row_key r) key)

supersede_in-tasks :
    (post : String) (key : Key) (db : Db)
    → IsWellFormed db
    → (supersede_in (some post) key db).1.tasks ≡ keep (λ r. not (doomed post key r)) db.tasks
unfolding supersede_in tasks_for replaces
supersede_in-tasks post key db w =
    supersede_rows-tasks key (keep (post_is post) db.tasks) db
    ∙ keep_cong _ _ db.tasks (λ r m. ap not (exact r m))
  where
    exact :
        (r : Task)
        → In r db.tasks
        → hit (replaces key) (keep (post_is post) db.tasks) r ≡ doomed post key r
    exact r m =
        hit-keep (replaces key) (post_is post) db.tasks r
        ∙ hit-In (doomed post key) 0 db.seq db.tasks r w.ids m

-- On well-formed tables `_supersede` of a task of a post removes exactly the pending rows of that
-- post whose resource key is the task's, and keeps every other row as it is and in its order.
pub supersede_lem :
    (t : TaskSpec) (post : String) (db : Db)
    → IsWellFormed db
    → t.post_id ≡ some post
    → (supersede t db).1.tasks ≡ keep (λ r. not (doomed post (spec_key t) r)) db.tasks
unfolding supersede
supersede_lem t post db w e =
    ap (λ o. (supersede_in o (spec_key t) db).1.tasks) e ∙ supersede_in-tasks post (spec_key t) db w

supersede_rows-rest :
    (key : Key) (rows : List Task) (db : Db)
    → IsWellFormed db
    → IsWellFormed (supersede_rows key rows db).1
unfolding supersede_rows
supersede_rows-rest key [] db w = w
supersede_rows-rest key (r ∷ rows) db w = elim (Bool-cases (replaces key r)) [
  | inl e ↦
      rw e (supersede_rows-rest key rows (remove r.task_id db) (remove-IsWellFormed db w r.task_id))
  | inr e ↦ rw e (supersede_rows-rest key rows db w)
]

supersede_in-IsWellFormed :
    (o : Option String) (key : Key) (db : Db)
    → IsWellFormed db
    → IsWellFormed (supersede_in o key db).1
unfolding supersede_in
supersede_in-IsWellFormed none key db w = w
supersede_in-IsWellFormed (some post) key db w = supersede_rows-rest key (tasks_for post db) db w

pub supersede-IsWellFormed :
    (t : TaskSpec) (db : Db) → IsWellFormed db → IsWellFormed (supersede t db).1
unfolding supersede
supersede-IsWellFormed t db w = supersede_in-IsWellFormed t.post_id (spec_key t) db w
