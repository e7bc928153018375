-- ===== src/Sync/Gather.antt =====
-- About the rows that the teardown of an entry gathers (sync_to_db.py).
use specseed.Prelude.{
  ℕ, ◌<◌, ◌≤◌, ◌≡◌, refl, sym, ◌∙◌, inl, inr, ◌⊎◌, String, Bool, true, false, ◌&&◌, ◌||◌, not, List,
  [], ◌∷◌, ◌++◌, arith, In, In-keep, keep-In, All, keep, Bool-cases, append-nil, append_assoc,
}
use specseed.Queue.{Db, Task, tasks_for, post_is, status_eq, pending}
use specseed.Queue.Rows.{Ids, Ids-keep}
use specseed.Queue.Invariant.{IsWellFormed}
use specseed.Sync.{teardown_rows, gather, gather_comments, has_row, comment_keyed}

abbrev is_pending : Task → Bool
is_pending t = status_eq t.status pending

pub In-append_left : (t : Task) (xs ys : List Task) → In t xs → In t (xs ++ ys)
In-append_left t [] ys h = elim h [ ]
In-append_left t (x ∷ xs) ys (inl e) = inl e
In-append_left t (x ∷ xs) ys (inr m) = inr (In-append_left t xs ys m)

pub In-append : (t : Task) (xs ys : List Task) → In t (xs ++ ys) → In t xs ⊎ In t ys
In-append t [] ys h = inr h
In-append t (x ∷ xs) ys (inl e) = inl (inl e)
In-append t (x ∷ xs) ys (inr m) = elim (In-append t xs ys m) [ inl a ↦ inl (inr a) | inr b ↦ inr b ]

-- what was found stays found
gather_grows :
    (all : Bool) (rows found : List Task) (t : Task) → In t found → In t (gather all rows found)
unfolding gather
gather_grows all [] found t m = m
gather_grows all (r ∷ rows) found t m =
    elim (Bool-cases ((all || comment_keyed r.action) && not (has_row r.task_id found))) [
      | inl e ↦ rw e (gather_grows all rows (found ++ r ∷ []) t (In-append_left t found (r ∷ []) m))
      | inr e ↦ rw e (gather_grows all rows found t m)
    ]

gather_comments_grows :
    (cids : List String) (db : Db) (found : List Task) (t : Task)
    → In t found
    → In t (gather_comments cids db found)
unfolding gather_comments
gather_comments_grows [] db found t m = m
gather_comments_grows (cid ∷ cids) db found t m =
    gather_comments_grows cids db (gather false (tasks_for cid db) found) t
      (gather_grows false (tasks_for cid db) found t m)

-- and only rows of the lists are found
gather-In :
    (all : Bool) (rows found : List Task) (t : Task)
    → In t (gather all rows found)
    → In t found ⊎ In t rows
unfolding gather
gather-In all [] found t m = inl m
gather-In all (r ∷ rows) found t m =
    elim (Bool-cases ((all || comment_keyed r.action) && not (has_row r.task_id found))) [
      | inl e ↦ taken (gather-In all rows (found ++ r ∷ []) t (rw e at m))
      | inr e ↦ passed (gather-In all rows found t (rw e at m))
    ]
  where
    old : In t found ⊎ In t (r ∷ []) → In t found ⊎ In t (r ∷ rows)
    old (inl a) = inl a
    old (inr (inl b)) = inr (inl b)
    old (inr (inr b)) = absurd b

    taken : In t (found ++ r ∷ []) ⊎ In t rows → In t found ⊎ In t (r ∷ rows)
    taken (inl a) = old (In-append t found (r ∷ []) a)
    taken (inr b) = inr (inr b)

    passed : In t found ⊎ In t rows → In t found ⊎ In t (r ∷ rows)
    passed (inl a) = inl a
    passed (inr b) = inr (inr b)

gather_comments-In :
    (cids : List String) (db : Db) (found : List Task) (t : Task)
    → ((r : Task) → In r found → In r db.tasks)
    → In t (gather_comments cids db found)
    → In t db.tasks
unfolding gather_comments
gather_comments-In [] db found t h m = h t m
gather_comments-In (cid ∷ cids) db found t h m =
    gather_comments-In cids db (gather false (tasks_for cid db) found) t sub m
  where
    from : (r : Task) → In r found ⊎ In r (tasks_for cid db) → In r db.tasks
    from r (inl a) = h r a
    from r (inr b) = (In-keep (post_is cid) r db.tasks (unfold tasks_for in b)).0

    sub : (r : Task) → In r (gather false (tasks_for cid db) found) → In r db.tasks
    sub r a = from r (gather-In false (tasks_for cid db) found r a)

has_row_below :
    (id lo : ℕ) (found : List Task)
    → All (λ (r : Task). r.task_id ≤ lo) found
    → lo < id
    → has_row id found ≡ false
has_row_below id lo [] h l = refl
has_row_below id lo (r ∷ found) h l = ground (arith, h.0, has_row_below id lo found h.1 l)

below_snoc :
    (lo : ℕ) (r : Task) (found : List Task)
    → All (λ (x : Task). x.task_id ≤ lo) found
    → lo < r.task_id
    → All (λ (x : Task). x.task_id ≤ r.task_id) (found ++ r ∷ [])
below_snoc lo r [] h l = (omega arith, tt)
below_snoc lo r (x ∷ found) h l = (omega (arith, h.0), below_snoc lo r found h.1 l)

-- the rows of the post itself, whose ids ascend, are all gathered
gather-Ids :
    (lo hi : ℕ) (rows found : List Task)
    → Ids lo hi rows
    → All (λ (r : Task). r.task_id ≤ lo) found
    → gather true rows found ≡ found ++ rows
unfolding gather
gather-Ids lo hi [] found h b = sym (append-nil found)
gather-Ids lo hi (r ∷ rows) found h b = rw (has_row_below r.task_id lo found b h.0) (
    gather-Ids r.task_id hi rows (found ++ r ∷ []) h.1 (below_snoc lo r found b h.0)
    ∙ append_assoc found (r ∷ []) rows)

pub teardown_rows-own :
    (db : Db)
    → IsWellFormed db
    → (post : String) (cids : List String) (r : Task) → In r db.tasks
    → post_is post r ≡ true
    → In r (teardown_rows post cids db)
unfolding teardown_rows tasks_for
teardown_rows-own db w post cids r m e =
    gather_comments_grows cids db (gather true (keep (post_is post) db.tasks) []) r (
      rw
        (gather-Ids 0 db.seq (keep (post_is post) db.tasks) []
          (Ids-keep (post_is post) 0 db.seq db.tasks w.ids) tt)
        (keep-In (post_is post) r db.tasks m e))

pub teardown_rows-In :
    (post : String) (cids : List String) (db : Db) (r : Task)
    → In r (teardown_rows post cids db)
    → In r db.tasks
unfolding teardown_rows tasks_for
teardown_rows-In post cids db r m =
    gather_comments-In cids db (gather true (keep (post_is post) db.tasks) []) r own m
  where
    from : (t : Task) → In t [] ⊎ In t (keep (post_is post) db.tasks) → In t db.tasks
    from t (inl a) = absurd a
    from t (inr b) = (In-keep (post_is post) t db.tasks b).0

    own : (t : Task) → In t (gather true (keep (post_is post) db.tasks) []) → In t db.tasks
    own t a = from t (gather-In true (keep (post_is post) db.tasks) [] t a)
