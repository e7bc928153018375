-- ===== src/Migrate/Chain.antt =====
-- What a run of the hops does: the pending ones, in order, and the storage is current after it.
use specseed.Prelude.{
  String, ℕ, Bool, true, false, ◌≡◌, refl, str_eq, sym, ap, subst, ◌∙◌, inl, inr, ◌&&◌, not, some,
  List, [], ◌∷◌, map, In, keep, keep_cong, ◌++◌, append-nil, append_assoc, if◌then◌else◌,
  Bool-cases,
}
use specseed.Prelude.Text.{strip}
use specseed.Migrate.{
  Hop, Storage, Climb, reached, applied, add_applied, hop_ran, climb, version_lt, storage_version,
  write_storage_version, parse_version, run_from, run_migrations, migrations,
}
use specseed.Migrate.Order.{version_lt_irrefl, version_lt_trans, version_lt-total}
use specseed.Migrate.Marker.{storage_version-write}

-- the text of a version, and the numbers that it parses to
abbrev pub IsVersion : String → List ℕ → Type 0
IsVersion text v = (strip text ≡ text) × (str_eq text "" ≡ false) × (parse_version text ≡ some v)

-- the hops follow each other without a gap, each forward, from the version p
abbrev pub IsChain : List ℕ → List Hop → Type 0
IsChain p [] = Unit
IsChain p (h ∷ hs) =
    (h.lower ≡ p) × (version_lt p h.upper ≡ true) × IsVersion h.to h.upper × IsChain h.upper hs

-- the hops that a run from v to the target has to do
abbrev pub is_pending : List ℕ → List ℕ → Hop → Bool
is_pending v target h = version_lt v h.upper && not (version_lt target h.upper)

abbrev pub pending_hops : List ℕ → List ℕ → List Hop → List String
pending_hops v target hops = map (λ h. h.name) (keep (is_pending v target) hops)

chain-above :
    (p : List ℕ) (hs : List Hop) (h : Hop) → IsChain p hs → In h hs → version_lt p h.upper ≡ true
chain-above p [] h c m = elim m [ ]
chain-above p (x ∷ hs) h c (inl e) = rw e (c.1)
chain-above p (x ∷ hs) h c (inr m) =
    version_lt_trans p x.upper h.upper c.1 (chain-above x.upper hs h c.3 m)

and_false : (b : Bool) → (b && false) ≡ false
and_false true = refl
and_false false = refl

-- past the target nothing is pending
none_pending :
    (v target p : List ℕ) (hs : List Hop)
    → IsChain p hs
    → version_lt target p ≡ true
    → keep (is_pending v target) hs ≡ []
none_pending v target p [] c l = refl
none_pending v target p (h ∷ hs) c l =
    let past = version_lt_trans target p h.upper l c.1 in
    rw (past, and_false (version_lt v h.upper)) (none_pending v target h.upper hs c.3 past)

-- the version that the storage has, as a text and as numbers
abbrev pub Reads : String → List ℕ → Storage → Type 0
Reads c v st = (storage_version st ≡ c) × (parse_version c ≡ some v)

written-Reads :
    (h : Hop) (st : Storage)
    → IsVersion h.to h.upper
    → Reads h.to h.upper (write_storage_version h.to st)
written-Reads h st i = (
  ap (λ t. storage_version (write_storage_version t st)) (sym i.0)
      ∙ storage_version-write h.to st (ap (λ t. str_eq t "") i.0 ∙ i.1)
      ∙ i.0,
  i.2,
)

-- where the loop ends: these hops are reported and ran, a storage that reads back, and not beyond the
-- target
abbrev Ends : List String → List String → List ℕ → Climb → Type 0
Ends before names target r =
    (c : String) × (v : List ℕ) × (st' : Storage) × (r ≡ reached names c v st')
    × Reads c v st'
    × (version_lt target v ≡ false)
    × (st'.ran ≡ before ++ names)

add-Ends :
    (before : List String) (name : String) (names : List String) (target : List ℕ) (r : Climb)
    → Ends (before ++ name ∷ []) names target r
    → Ends before (name ∷ names) target (add_applied name r)
add-Ends before name names target r (c, v, st, e, rd, k, ran) =
    (c, v, st, rw e refl, rd, k, ran ∙ append_assoc before (name ∷ []) names)

later_pending :
    (v u target : List ℕ) (hs : List Hop)
    → IsChain u hs
    → version_lt v u ≡ true
    → keep (is_pending v target) hs ≡ keep (is_pending u target) hs
later_pending v u target hs ch l = keep_cong (is_pending v target) (is_pending u target) hs (λ h m.
    rw (chain-above u hs h ch m, version_lt_trans v u h.upper l (chain-above u hs h ch m)) refl)

climb_lem :
    (works : Hop → Bool)
    → ((h : Hop) → works h ≡ true)
    → (target p : List ℕ) (hs : List Hop) (c : String) (v : List ℕ) (st : Storage) → IsChain p hs
    → version_lt v p ≡ false
    → version_lt target v ≡ false
    → Reads c v st
    → Ends st.ran (pending_hops v target hs) target (climb works target hs c v st)
unfolding climb
climb_lem works ok target p [] c v st ch l b r = (c, v, st, refl, r, b, sym (append-nil st.ran))
climb_lem works ok target p (h ∷ hs) c v st ch l b r =
    elim (Bool-cases (version_lt target h.upper)) [
      | inl past ↦
          rw (past, and_false (version_lt v h.upper), none_pending v target h.upper hs ch.3 past)
            (c, v, st, refl, r, b, sym (append-nil st.ran))
      | inr due ↦ elim (Bool-cases (version_lt v h.upper)) [
        | inl low ↦
            rw
              (
                due,
                low,
                subst (λ q. version_lt v q ≡ false) (sym ch.0) l,
                ok h,
                later_pending v h.upper target hs ch.3 low,
              )
              (add-Ends st.ran h.name _ target _ (
                climb_lem works ok target h.upper hs h.to h.upper
                  (write_storage_version h.to (hop_ran h st)) ch.3 (version_lt_irrefl h.upper) due
                  (written-Reads h (hop_ran h st) ch.2)))
        | inr high ↦ rw (due, high) (climb_lem works ok target h.upper hs c v st ch.3 high b r)
      ]
    ]

climb_still :
    (works : Hop → Bool) (target : List ℕ) (hs : List Hop) (c : String) (st : Storage)
    → climb works target hs c target st ≡ reached [] c target st
unfolding climb
climb_still works target [] c st = refl
climb_still works target (h ∷ hs) c st = elim (Bool-cases (version_lt target h.upper)) [
  | inl e ↦ rw e refl
  | inr e ↦ rw e (climb_still works target hs c st)
]

nothing_left :
    (works : Hop → Bool) (hops : List Hop) (text : String) (target : List ℕ) (st : Storage)
    → parse_version text ≡ some target
    → parse_version (storage_version st) ≡ some target
    → run_migrations works hops text st ≡ applied [] st
unfolding run_migrations run_from
nothing_left works hops text target st i r =
    rw
      (
        i,
        r,
        version_lt_irrefl target,
        climb_still works target hops (storage_version st) st,
        version_lt_irrefl target,
      )
      refl

abbrev forwarded : String → List ℕ → List ℕ → Storage → Storage
forwarded text target v st = if version_lt v target then write_storage_version text st else st

forwarded-ran :
    (text : String) (target v : List ℕ) (st : Storage) → (forwarded text target v st).ran ≡ st.ran
unfolding write_storage_version
forwarded-ran text target v st = elim (Bool-cases (version_lt v target)) [
  | inl e ↦ rw e refl
  | inr e ↦ rw e refl
]

forwarded-Reads :
    (text : String) (target : List ℕ) (c : String) (v : List ℕ) (st : Storage)
    → IsVersion text target
    → Reads c v st
    → version_lt target v ≡ false
    → parse_version (storage_version (forwarded text target v st)) ≡ some target
forwarded-Reads text target c v st i r k = elim (Bool-cases (version_lt v target)) [
  | inl e ↦ rw e (
      ap (λ t. parse_version (storage_version (write_storage_version t st))) (sym i.0)
      ∙ ap parse_version (storage_version-write text st (ap (λ t. str_eq t "") i.0 ∙ i.1))
      ∙ ap parse_version i.0
      ∙ i.2)
  | inr e ↦ rw e (ap parse_version r.0 ∙ r.1 ∙ ap some (version_lt-total v target e k))
]

-- With hops that follow each other without a gap and all work, and a storage that is neither older
-- than the first hop nor newer than the engine, a run does exactly the pending hops, each once and
-- oldest first, and reports them; the storage then has the engine's version; and a second run does
-- nothing.
pub run_migrations_lem :
    (works : Hop → Bool)
    → ((h : Hop) → works h ≡ true)
    → (p : List ℕ) (hops : List Hop) (text : String) (target v : List ℕ) (st : Storage)
    → IsChain p hops
    → IsVersion text target
    → parse_version (storage_version st) ≡ some v
    → version_lt v p ≡ false
    → version_lt target v ≡ false
    → (st' : Storage) × (run_migrations works hops text st
        ≡ applied (pending_hops v target hops) st')
      × (st'.ran ≡ st.ran ++ pending_hops v target hops)
      × (parse_version (storage_version st') ≡ some target)
      × (run_migrations works hops text st' ≡ applied [] st')
unfolding run_migrations run_from
run_migrations_lem works ok p hops text target v st ch i r l b =
    let (c, u, st', e, rd, k, ran) =
      climb_lem works ok target p hops (storage_version st) v st ch l b (refl, r) in
    let now = forwarded-Reads text target c u st' i rd k in
    (
      forwarded text target u st',
      rw (r, i.2, b, e) refl,
      forwarded-ran text target u st' ∙ ran,
      now,
      nothing_left works hops text target (forwarded text target u st') i.2 now,
    )

-- The hops of the engine are such a chain, from the first version that has a marker.
pub migrations-IsChain : IsChain (0 ∷ 3 ∷ 0 ∷ []) migrations
unfolding version_lt parse_version strip str_eq
migrations-IsChain = (
  refl,
  refl,
  (refl, refl, refl),
  (
    refl,
    refl,
    (refl, refl, refl),
    (
      refl,
      refl,
      (refl, refl, refl),
      (
        refl,
        refl,
        (refl, refl, refl),
        (
          refl,
          refl,
          (refl, refl, refl),
          (
            refl,
            refl,
            (refl, refl, refl),
            (
              refl,
              refl,
              (refl, refl, refl),
              (
                refl,
                refl,
                (refl, refl, refl),
                (
                  refl,
                  refl,
                  (refl, refl, refl),
                  (
                    refl,
                    refl,
                    (refl, refl, refl),
                    (
                      refl,
                      refl,
                      (refl, refl, refl),
                      (
                        refl,
                        refl,
                        (refl, refl, refl),
                        (refl, refl, (refl, refl, refl), (refl, refl, (refl, refl, refl), tt)),
                      ),
                    ),
                  ),
                ),
              ),
            ),
          ),
        ),
      ),
    ),
  ),
)
