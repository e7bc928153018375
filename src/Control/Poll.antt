-- ===== src/Control/Poll.antt =====
-- About `poll` of control.py: the commands it gives and the cursor it keeps.
use specseed.Prelude.{
  ℕ, String, ◌<◌, ◌≡◌, refl, sym, ap, subst, inl, inr, true, false, Option, none, some, List, [],
  ◌∷◌, arith, In, In-keep, leb, if◌then◌else◌, Bool-cases,
}
use specseed.Config.{Config}
use specseed.Control.{
  Comment, ControlCommand, is_command, insert, sort, command_of, commands_in, after_cursor, advance,
  poll,
}

-- the cursor never falls
advance-grows :
    (cursor : Option ℕ) (cs : List ControlCommand) (k : ControlCommand)
    → after_cursor cursor k ≡ false
    → after_cursor (advance cursor cs) k ≡ false
unfolding advance
advance-grows cursor [] k h = h
advance-grows cursor (c ∷ cs) k h =
    advance-grows (if after_cursor cursor c then some c.comment_id else cursor) cs k (next cursor h)
  where
    next :
        (cur : Option ℕ)
        → after_cursor cur k ≡ false
        → after_cursor (if after_cursor cur c then some c.comment_id else cur) k ≡ false
    next none e = cc
    next (some m) e = ground (arith, e)

-- and it passes every command that was seen
advance-passes :
    (cursor : Option ℕ) (cs : List ControlCommand) (k : ControlCommand)
    → In k cs
    → after_cursor (advance cursor cs) k ≡ false
unfolding advance
advance-passes cursor [] k m = elim m [ ]
advance-passes cursor (c ∷ cs) k (inr m) =
    advance-passes (if after_cursor cursor c then some c.comment_id else cursor) cs k m
advance-passes cursor (c ∷ cs) k (inl e) =
    advance-grows (if after_cursor cursor c then some c.comment_id else cursor) cs k (
      subst
        (λ x. after_cursor (if after_cursor cursor c then some c.comment_id else cursor) x ≡ false)
        (sym e) (own cursor))
  where
    own :
        (cur : Option ℕ)
        → after_cursor (if after_cursor cur c then some c.comment_id else cur) c ≡ false
    own none = ground arith
    own (some m) = ground arith

below :
    (cursor : Option ℕ) (c d : ControlCommand)
    → after_cursor cursor c ≡ false
    → after_cursor cursor d ≡ true
    → c.comment_id < d.comment_id
below none c d h k = cc
below (some m) c d h k = ground (arith, h, k)

fresh-after :
    (config : Config) (bot : Option String) (post : Option (List Comment)) (cursor : Option ℕ)
    (d : ControlCommand)
    → In d (poll config bot post cursor).0
    → after_cursor cursor d ≡ true
unfolding poll
fresh-after config bot none cursor d m = elim m [ ]
fresh-after config bot (some cs) cursor d m = (In-keep (after_cursor cursor) d _ m).1

given-passed :
    (config : Config) (bot : Option String) (post : Option (List Comment)) (cursor : Option ℕ)
    (c : ControlCommand)
    → In c (poll config bot post cursor).0
    → after_cursor (poll config bot post cursor).1 c ≡ false
unfolding poll
given-passed config bot none cursor c m = elim m [ ]
given-passed config bot (some cs) cursor c m =
    advance-passes cursor _ c (In-keep (after_cursor cursor) c _ m).0

-- A command that a poll gives is of a later comment than every command that the poll before it
-- gave, whatever the post holds then and whoever may command then: no comment is obeyed twice.
pub poll-poll :
    (config config' : Config) (bot bot' : Option String) (post post' : Option (List Comment))
    (cursor : Option ℕ) (c d : ControlCommand)
    → In c (poll config bot post cursor).0
    → In d (poll config' bot' post' (poll config bot post cursor).1).0
    → c.comment_id < d.comment_id
poll-poll config config' bot bot' post post' cursor c d m n =
    below (poll config bot post cursor).1 c d (given-passed config bot post cursor c m)
      (fresh-after config' bot' post' (poll config bot post cursor).1 d n)

insert-In : (x c : Comment) (cs : List Comment) → In x (c ∷ cs) → In x (insert c cs)
unfolding insert
insert-In x c [] m = m
insert-In x c (d ∷ ds) m = elim (Bool-cases (leb c.id d.id)) [
  | inl e ↦ rw e m
  | inr e ↦ rw e (moved (λ n. insert-In x c ds n) m)
]
  where
    moved : (In x (c ∷ ds) → In x (insert c ds)) → In x (c ∷ d ∷ ds) → In x (d ∷ insert c ds)
    moved ih (inl q) = inr (ih (inl q))
    moved ih (inr (inl q)) = inl q
    moved ih (inr (inr n)) = inr (ih (inr n))

In-insert : (x c : Comment) (cs : List Comment) → In x (insert c cs) → In x (c ∷ cs)
unfolding insert
In-insert x c [] m = m
In-insert x c (d ∷ ds) m = elim (Bool-cases (leb c.id d.id)) [
  | inl e ↦ rw e at m
  | inr e ↦ moved (λ n. In-insert x c ds n) (rw e at m)
]
  where
    back : In x (c ∷ ds) → In x (c ∷ d ∷ ds)
    back (inl q) = inl q
    back (inr n) = inr (inr n)

    moved : (In x (insert c ds) → In x (c ∷ ds)) → In x (d ∷ insert c ds) → In x (c ∷ d ∷ ds)
    moved ih (inl q) = inr (inl q)
    moved ih (inr n) = back (ih n)

pub sort-In : (x : Comment) (cs : List Comment) → In x cs → In x (sort cs)
unfolding sort
sort-In x [] m = m
sort-In x (c ∷ cs) (inl e) = insert-In x c (sort cs) (inl e)
sort-In x (c ∷ cs) (inr m) = insert-In x c (sort cs) (inr (sort-In x cs m))

pub In-sort : (x : Comment) (cs : List Comment) → In x (sort cs) → In x cs
unfolding sort
In-sort x [] m = m
In-sort x (c ∷ cs) m = split (λ n. In-sort x cs n) (In-insert x c (sort cs) m)
  where
    split : (In x (sort cs) → In x cs) → In x (c ∷ sort cs) → In x (c ∷ cs)
    split ih (inl e) = inl e
    split ih (inr n) = inr (ih n)

-- a comment of the list that is a command, as a command
abbrev pub Commands : List String → Option String → List Comment → ControlCommand → Type 0
Commands allowed bot cs k =
    (x : Comment) × In x cs × (is_command allowed bot x ≡ true) × (k ≡ command_of x)

pub commands_in-Commands :
    (allowed : List String) (bot : Option String) (cs : List Comment) (k : ControlCommand)
    → In k (commands_in allowed bot cs)
    → Commands allowed bot cs k
unfolding commands_in
commands_in-Commands allowed bot [] k m = elim m [ ]
commands_in-Commands allowed bot (c ∷ cs) k m = elim (Bool-cases (is_command allowed bot c)) [
  | inl e ↦ here (λ n. commands_in-Commands allowed bot cs k n) e (rw e at m)
  | inr e ↦ later (commands_in-Commands allowed bot cs k (rw e at m))
]
  where
    later : Commands allowed bot cs k → Commands allowed bot (c ∷ cs) k
    later (x, n, e, q) = (x, inr n, e, q)

    here :
        (In k (commands_in allowed bot cs) → Commands allowed bot cs k)
        → is_command allowed bot c ≡ true
        → In k (command_of c ∷ commands_in allowed bot cs)
        → Commands allowed bot (c ∷ cs) k
    here ih e (inl q) = (c, inl refl, e, q)
    here ih e (inr n) = later (ih n)

pub Commands-In :
    (allowed : List String) (bot : Option String) (cs : List Comment) (x : Comment)
    → In x cs
    → is_command allowed bot x ≡ true
    → In (command_of x) (commands_in allowed bot cs)
unfolding commands_in
Commands-In allowed bot [] x m e = elim m [ ]
Commands-In allowed bot (c ∷ cs) x m e = elim (Bool-cases (is_command allowed bot c)) [
  | inl t ↦ rw t (kept (λ n. Commands-In allowed bot cs x n e) m)
  | inr t ↦ rw t (skipped (λ n. Commands-In allowed bot cs x n e) t m)
]
  where
    kept :
        (In x cs → In (command_of x) (commands_in allowed bot cs))
        → In x (c ∷ cs)
        → In (command_of x) (command_of c ∷ commands_in allowed bot cs)
    kept ih (inl q) = inl (ap command_of q)
    kept ih (inr n) = inr (ih n)

    skipped :
        (In x cs → In (command_of x) (commands_in allowed bot cs))
        → is_command allowed bot c ≡ false
        → In x (c ∷ cs)
        → In (command_of x) (commands_in allowed bot cs)
    skipped ih t (inl q) = absurd (cc (ap (is_command allowed bot) q, e, t))
    skipped ih t (inr n) = ih n
