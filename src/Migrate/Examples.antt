-- ===== src/Migrate/Examples.antt =====
-- The migration theorem at the engine's hops, from a storage of version 0.19.0.
use specseed.Prelude.{ℕ, ◌≡◌, refl, Bool, true, false, none, some, List, [], ◌∷◌, ◌++◌, str_eq}
use specseed.Prelude.Text.{strip}
use specseed.Migrate.{
  Hop, Storage, migrations, run_migrations, applied, storage_version, parse_version, version_lt,
}
use specseed.Migrate.Chain.{IsVersion, pending_hops, run_migrations_lem, migrations-IsChain}

abbrev works : Hop → Bool
works h = true

abbrev old : Storage
old = record { marker = none; legacy_marker = some "0.19.0\n"; ran = [] }

abbrev v0_19_0 : List ℕ
v0_19_0 = 0 ∷ 19 ∷ 0 ∷ []

abbrev v0_22_1 : List ℕ
v0_22_1 = 0 ∷ 22 ∷ 1 ∷ []

engine : IsVersion "0.22.1" v0_22_1
unfolding strip str_eq parse_version
engine = (refl, refl, refl)

marked : parse_version (storage_version old) ≡ some v0_19_0
unfolding parse_version storage_version
marked = refl

not_ancient : version_lt v0_19_0 (0 ∷ 3 ∷ 0 ∷ []) ≡ false
unfolding version_lt
not_ancient = refl

not_newer : version_lt v0_22_1 v0_19_0 ≡ false
unfolding version_lt
not_newer = refl

run_migrations_example :
    (st : Storage) × (run_migrations works migrations "0.22.1" old
      ≡ applied (pending_hops v0_19_0 v0_22_1 migrations) st)
    × (st.ran ≡ [] ++ pending_hops v0_19_0 v0_22_1 migrations)
    × (parse_version (storage_version st) ≡ some v0_22_1)
    × (run_migrations works migrations "0.22.1" st ≡ applied [] st)
run_migrations_example =
    run_migrations_lem works (λ h. refl) (0 ∷ 3 ∷ 0 ∷ []) migrations "0.22.1" v0_22_1 v0_19_0 old
      migrations-IsChain engine marked not_ancient not_newer

two_hops : pending_hops v0_19_0 v0_22_1 migrations ≡ "m_0_19_0__0_20_0" ∷ "m_0_20_0__0_21_0" ∷ []
unfolding version_lt
two_hops = refl
