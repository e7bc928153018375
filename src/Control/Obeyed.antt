-- ===== src/Control/Obeyed.antt =====
-- Which comments of the CONTROL post `poll` of control.py obeys, and in which order.
use specseed.Prelude.{
  some_injective, ℕ, String, ◌<◌, ◌≡◌, ◌≢◌, ◌↔◌, refl, sym, ap, subst, ◌∙◌, inl, inr, Bool, true,
  false, ◌&&◌, not, Option, none, some, List, [], ◌∷◌, arith, In, In-keep, keep-In, keep, map,
  str_eq, str_eq_iff, Bool-cases,
}
use specseed.Prelude.Text.{casefold}
use specseed.Config.{Config}
use specseed.StateMachine.{contains}
use specseed.Approval.{approver_usernames}
use specseed.Control.{
  Comment, ControlCommand, first_token, is_command, sort, command_of, commands_in,
  parse_control_commands, after_cursor, poll, verbs, folded_in, is_bot,
}
use specseed.Control.Poll.{commands_in-Commands, Commands-In, sort-In, In-sort}
use specseed.Control.Words.{spoken, first_token-spoken}
use specseed.Control.Order.{
  Ascending, by_comment, sort-Ascending, commands_in-Ascending, keep-Ascending,
}

-- the comment is by an approver that is not the bot, and begins with one of the four verbs
pub record Obeyed (config : Config) (bot : Option String) (x : Comment) : Type 0 where
  pub by : String
  pub author : x.author ≡ some by
  pub approver : (u : String) × In u (approver_usernames config) × (casefold by ≡ casefold u)
  pub not_bot : (b : String) → bot ≡ some b → casefold by ≢ casefold b
  pub verb : In (spoken x.body) ("status" ∷ "start" ∷ "pause" ∷ "stop" ∷ [])

-- the command of a comment
abbrev pub told : Comment → ControlCommand
told x = record { verb = spoken x.body; author = x.author; comment_id = x.id }

command_of-told : (x : Comment) → command_of x ≡ told x
command_of-told x = rw (first_token-spoken x.body) refl

abbrev pub Later : Option ℕ → ℕ → Type 0
Later none id = Unit
Later (some m) id = m < id

contains-In : (s : String) (xs : List String) → contains s xs ≡ true → In s xs
contains-In s [] h = cc
contains-In s (x ∷ xs) h = elim (Bool-cases (str_eq x s)) [
  | inl e ↦ inl (sym ((str_eq_iff x s).0 e))
  | inr e ↦ inr (contains-In s xs (ground (arith, h, e)))
]

In-contains : (s : String) (xs : List String) → In s xs → contains s xs ≡ true
In-contains s [] i = elim i [ ]
In-contains s (x ∷ xs) (inl e) = rw ((str_eq_iff x s).1 (sym e)) refl
In-contains s (x ∷ xs) (inr i) = ground (arith, In-contains s xs i)

In-map_fold :
    (s : String) (us : List String)
    → In s (map casefold us)
    → (u : String) × In u us × (s ≡ casefold u)
In-map_fold s [] i = elim i [ ]
In-map_fold s (u ∷ us) (inl e) = (u, inl refl, e)
In-map_fold s (u ∷ us) (inr i) = let (v, j, e) = In-map_fold s us i in (v, inr j, e)

map_fold-In : (u : String) (us : List String) → In u us → In (casefold u) (map casefold us)
map_fold-In u [] i = elim i [ ]
map_fold-In u (v ∷ us) (inl e) = inl (ap casefold e)
map_fold-In u (v ∷ us) (inr i) = inr (map_fold-In u us i)

abbrev NotBot : Option String → String → Type 0
NotBot bot a = (b : String) → bot ≡ some b → casefold a ≢ casefold b

is_bot-NotBot : (bot : Option String) (a : String) → is_bot bot (some a) ≡ false → NotBot bot a
is_bot-NotBot none a h b e = cc
is_bot-NotBot (some c) a h b e = λ same.
    cc (
      (str_eq_iff (casefold a) (casefold c)).1 (same ∙ ap casefold (sym (some_injective c b e))),
      h,
    )

NotBot-is_bot : (bot : Option String) (a : String) → NotBot bot a → is_bot bot (some a) ≡ false
NotBot-is_bot none a h = refl
NotBot-is_bot (some c) a h = elim (Bool-cases (str_eq (casefold a) (casefold c))) [
  | inl e ↦ absurd (h c refl ((str_eq_iff (casefold a) (casefold c)).0 e))
  | inr e ↦ e
]

-- the tests of `is_command`, the author read first
abbrev passes : Config → Option String → String → Option String → Bool
passes config bot verb author =
    not (is_bot bot author)
    && contains verb verbs
    && folded_in author (map casefold (approver_usernames config))

module _ (config : Config) (bot : Option String) (x : Comment) where
  passes-Obeyed :
      (o : Option String)
      → x.author ≡ o
      → passes config bot (first_token x.body) o ≡ true
      → Obeyed config bot x
  passes-Obeyed none e h = absurd (ground (arith, h))
  passes-Obeyed (some a) e h = record {
    by = a;
    author = e;
    approver =
        In-map_fold (casefold a) (approver_usernames config)
          (contains-In (casefold a) (map casefold (approver_usernames config)) (ground (arith, h)));
    not_bot = is_bot-NotBot bot a (ground (arith, h));
    verb =
        subst (λ w. In w verbs) (first_token-spoken x.body)
          (contains-In (first_token x.body) verbs (ground (arith, h)));
  }

  Obeyed-passes : Obeyed config bot x → passes config bot (first_token x.body) x.author ≡ true
  Obeyed-passes o =
      let (u, i, same) = o.approver in
      rw
        (
          o.author,
          NotBot-is_bot bot o.by o.not_bot,
          first_token-spoken x.body,
          In-contains (spoken x.body) verbs o.verb,
          same,
          In-contains (casefold u) _ (map_fold-In u (approver_usernames config) i),
        )
        refl

  is_command-Obeyed :
      (is_command (map casefold (approver_usernames config)) bot x ≡ true) ↔ Obeyed config bot x
  unfolding is_command
  is_command-Obeyed = (λ h. passes-Obeyed x.author refl h, Obeyed-passes)

Later-after :
    (cursor : Option ℕ) (x : Comment)
    → (after_cursor cursor (command_of x) ≡ true) ↔ Later cursor x.id
Later-after none x = (λ h. tt, λ h. refl)
Later-after (some m) x = (λ h. ground (arith, h), λ h. ground (arith, h))

-- A poll of the post gives the commands in ascending order of their comments, and a command is given
-- exactly when it is that of a comment of the post later than the cursor, whose author is an approver
-- and not the bot, the case of the names aside, and whose first word, the case aside, is
-- status, start, pause or stop; the command holds that word, the author and the comment's id.
pub poll_lem :
    (config : Config) (bot : Option String) (cs : List Comment) (cursor : Option ℕ)
    → Ascending by_comment (poll config bot (some cs) cursor).0
      × ((k : ControlCommand)
          → In k (poll config bot (some cs) cursor).0
            ↔ ((x : Comment) × In x cs × Obeyed config bot x × Later cursor x.id × (k ≡ told x)))
unfolding poll parse_control_commands
poll_lem config bot cs cursor = (
  keep-Ascending (after_cursor cursor) (commands_in allowed bot (sort cs))
      (commands_in-Ascending allowed bot (sort cs) (sort-Ascending cs)),
  λ k. (forth k, back k),
)
  where
    allowed : List String
    allowed = map casefold (approver_usernames config)

    forth :
        (k : ControlCommand)
        → In k (keep (after_cursor cursor) (commands_in allowed bot (sort cs)))
        → (x : Comment) × In x cs × Obeyed config bot x × Later cursor x.id × (k ≡ told x)
    forth k m =
        let (i, a) = In-keep (after_cursor cursor) k (commands_in allowed bot (sort cs)) m in
        let (x, j, e, q) = commands_in-Commands allowed bot (sort cs) k i in
        (
          x,
          In-sort x cs j,
          (is_command-Obeyed config bot x).0 e,
          (Later-after cursor x).0 (sym (ap (after_cursor cursor) q) ∙ a),
          q ∙ command_of-told x,
        )

    back :
        (k : ControlCommand)
        → ((x : Comment) × In x cs × Obeyed config bot x × Later cursor x.id × (k ≡ told x))
        → In k (keep (after_cursor cursor) (commands_in allowed bot (sort cs)))
    back k (x, j, o, l, p) =
        let q = p ∙ sym (command_of-told x) in
        keep-In (after_cursor cursor) k (commands_in allowed bot (sort cs))
          (subst (λ y. In y (commands_in allowed bot (sort cs))) (sym q)
            (Commands-In allowed bot (sort cs) x (sort-In x cs j)
              ((is_command-Obeyed config bot x).1 o)))
          (ap (after_cursor cursor) q ∙ (Later-after cursor x).1 l)
