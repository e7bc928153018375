-- ===== src/Dispatch/Jobs.antt =====
-- executing/dispatch.py, `_has_pending_work_job` before an enqueue: the heavy jobs do not pile up.
use specseed.Prelude.{
  ℕ, ◌+◌, ◌≤◌, ◌≡◌, refl, inl, inr, String, Bool, true, false, ◌&&◌, some, List, [], ◌∷◌, ◌++◌,
  arith, any, keep, count, count-append, Bool-cases, str_eq, str_eq_iff, if◌then◌else◌,
}
use specseed.Payload.{Payload}
use specseed.Queue.{
  Db, Task, work, new_task, insert_in, insert_task, is_blank, post_is, tasks_for, enqueue,
}
use specseed.Dispatch.{is_job, stored, schedule, has_pending_work_job}

-- the jobs of an action for a post that wait or run
abbrev pub jobs : (action post_id : String) → Db → ℕ
jobs action post_id db = count (λ t. is_job action t && post_is post_id t) db.tasks

unfoldable pub OneJob : (action : String) → Db → Type 0
OneJob action db = (post_id : String) → str_eq post_id "" ≡ false → jobs action post_id db ≤ 1

any-keep :
    (p q : Task → Bool) (ts : List Task)
    → any p (keep q ts) ≡ false
    → count (λ t. p t && q t) ts ≡ 0
any-keep p q [] h = refl
any-keep p q (t ∷ ts) h = ground (arith, any-keep p q ts)

one_more :
    (b c : Bool) (n : ℕ) → n ≤ 1 → (b ≡ true → c ≡ true → n ≡ 0) → n + (if b && c then 1 else 0) ≤ 1
one_more true true n l z = omega (arith, z refl refl)
one_more true false n l z = omega arith
one_more false c n l z = omega arith

-- a row put at the end, where the post has no job of its action yet
appended_lem :
    (action : String) (t : Task) (db : Db) (post_id : String)
    → jobs action post_id db ≤ 1
    → (is_job action t ≡ true → post_is post_id t ≡ true → jobs action post_id db ≡ 0)
    → count (λ u. is_job action u && post_is post_id u) (db.tasks ++ t ∷ []) ≤ 1
appended_lem action t db post_id l z =
    rw (count-append (λ u. is_job action u && post_is post_id u) db.tasks (t ∷ []))
      (one_more (is_job action t) (post_is post_id t) (jobs action post_id db) l z)

-- the guard of `schedule`
no_job :
    (db : Db) (post_id action : String)
    → str_eq post_id "" ≡ false
    → has_pending_work_job db post_id action ≡ false
    → jobs action post_id db ≡ 0
unfolding has_pending_work_job tasks_for
no_job db post_id action f h = any-keep (is_job action) (post_is post_id) db.tasks (rw f at h)

left_true : (b : Bool) → (b && true) ≡ true → b ≡ true
left_true true e = refl
left_true false e = e

enqueue-jobs :
    (now : ℕ) (post_id action : String) (payload : Payload) (priority : ℕ) (db : Db) (a p : String)
    → jobs a p db ≤ 1
    → (str_eq action a ≡ true → str_eq post_id p ≡ true → jobs a p db ≡ 0)
    → jobs a p (stored db (enqueue now action (some post_id) payload "work" priority db)) ≤ 1
unfolding enqueue insert_in insert_task
enqueue-jobs now post_id action payload priority db a p l z = elim (Bool-cases (is_blank action)) [
  | inl e ↦ rw e l
  | inr e ↦ rw e (
      appended_lem a (new_task (db.seq + 1) now action (some post_id) payload work priority) db p l
        (λ j q. z (left_true (str_eq action a) j) q))
]

pub schedule-OneJob :
    (a : String) (now : ℕ) (post_id action : String) (payload : Payload) (priority : ℕ) (db : Db)
    → OneJob a db
    → OneJob a (schedule now post_id action payload priority db)
unfolding schedule OneJob
schedule-OneJob a now post_id action payload priority db h p f =
    elim (Bool-cases (has_pending_work_job db post_id action)) [
      | inl e ↦ rw e (h p f)
      | inr e ↦ rw e (
          enqueue-jobs now post_id action payload priority db a p (h p f) (λ u v.
            no_job db p a f (rw ((str_eq_iff action a).0 u, (str_eq_iff post_id p).0 v) at e)))
    ]
