-- ===== src/Permissions/Lookup.antt =====
-- About the two lookups of a dotted permission key (permissions.py).
use specseed.Prelude.{
  String, ◌≡◌, refl, sym, ap, ◌∙◌, Bool, true, false, Option, none, some, List, [], ◌∷◌,
  if◌then◌else◌,
}
use specseed.Permissions.{
  Json, null, flag, num, text, list, dict, Fields, end, Permissions, permissions, section, truthy,
  get, walk, or_look, look_in, allowed, allowed_at, permission_allowed, permission_allowed_at,
  parts, with_perms, all_sections,
}

-- what the view holds of the configuration
record IsView (config perms : Fields) (p : Permissions) : Type 0 where
  own : p.config ≡ config
  nested : p.perms ≡ perms

all_sections-IsView :
    (config state perms : Fields) (g r l a : Option Fields) (p : Permissions)
    → all_sections config state perms g r l a ≡ some p
    → IsView config perms p
all_sections-IsView config state perms (some g) (some r) (some l) (some a) p e = record {
  own = cc;
  nested = cc;
}
all_sections-IsView config state perms none r l a p e = cc
all_sections-IsView config state perms (some g) none l a p e = cc
all_sections-IsView config state perms (some g) (some r) none a p e = cc
all_sections-IsView config state perms (some g) (some r) (some l) none p e = cc

with_perms-IsView :
    (config state : Fields) (o : Option Fields) (p : Permissions)
    → with_perms config state o ≡ some p
    → (perms : Fields) × (o ≡ some perms) × IsView config perms p
with_perms-IsView config state none p e = cc
with_perms-IsView config state (some perms) p e =
    (perms, refl, all_sections-IsView config state perms _ _ _ _ p e)

nothing_at_end : (k : String) (ks : List String) → or_look (walk (k ∷ ks) (dict end)) false ≡ false
unfolding walk truthy
nothing_at_end k [] = refl
nothing_at_end k (l ∷ ks) = refl

-- a section that is no dict is empty, and there is nothing in it
blank :
    (k : String) (ks : List String) (b : Bool) (perms : Fields)
    → (if b then none else some end) ≡ some perms
    → or_look (walk (k ∷ ks) (dict perms)) false ≡ false
blank k ks true perms e = cc
blank k ks false perms e =
    ap (λ fs. or_look (walk (k ∷ ks) (dict fs)) false) (sym (same e)) ∙ nothing_at_end k ks
  where
    same : some end ≡ some perms → end ≡ perms
    same q = cc

second_root :
    (k : String) (ks : List String) (v : Json) (perms : Fields)
    → section v ≡ some perms
    → or_look (walk (k ∷ ks) (dict perms)) false ≡ look_in (k ∷ ks) v
unfolding section
second_root k ks (dict fs) perms e =
    ap (λ fs. or_look (walk (k ∷ ks) (dict fs)) false) (sym (unwrap e))
  where
    unwrap : some fs ≡ some perms → fs ≡ perms
    unwrap q = cc
second_root k ks null perms e = blank k ks (truthy null) perms e
second_root k ks (flag b) perms e = blank k ks (truthy (flag b)) perms e
second_root k ks (num n) perms e = blank k ks (truthy (num n)) perms e
second_root k ks (text s) perms e = blank k ks (truthy (text s)) perms e
second_root k ks (list xs) perms e = blank k ks (truthy (list xs)) perms e

both_roots :
    (ks : List String) (config perms : Fields) (p : Permissions)
    → section (get "permissions" config) ≡ some perms
    → IsView config perms p
    → allowed_at ks p ≡ permission_allowed_at ks config
both_roots [] config perms p e v = refl
both_roots (k ∷ ks) config perms p e v =
    ap (λ fs. or_look (walk (k ∷ ks) (dict fs)) (or_look (walk (k ∷ ks) (dict p.perms)) false))
      v.own
    ∙ ap (λ fs. or_look (walk (k ∷ ks) (dict config)) (or_look (walk (k ∷ ks) (dict fs)) false))
        v.nested
    ∙ ap (or_look (walk (k ∷ ks) (dict config)))
        (second_root k ks (get "permissions" config) perms e)

-- Where the view of a configuration can be made, `allowed` of a key and the lookup that the state
-- machine makes for its permission gate give the same answer.
pub allowed-permission_allowed :
    (config state : Fields) (p : Permissions) (key : String)
    → permissions config state ≡ some p
    → allowed key p ≡ permission_allowed config key
unfolding permissions allowed permission_allowed
allowed-permission_allowed config state p key e =
    let (perms, q, v) = with_perms-IsView config state (section (get "permissions" config)) p e in
    both_roots (parts key) config perms p q v

-- A key of one part is only looked up in the configuration itself, whatever is under permissions.
pub permission_allowed-single :
    (config : Fields) (key k : String)
    → parts key ≡ k ∷ []
    → permission_allowed config key ≡ truthy (get k config)
unfolding permission_allowed walk
permission_allowed-single config key k e = ap (λ ks. permission_allowed_at ks config) e
