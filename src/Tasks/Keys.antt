-- ===== src/Tasks/Keys.antt =====
-- Equality of resource keys is an equivalence that the sync can compare by.
use specseed.Prelude.{String, true, ◌≡◌, refl, Option, none, some, arith, str_eq_refl, ==_refl}
use specseed.Payload.{Value, null, flag, num, text, entity}
use specseed.Tasks.{
  Key, comment_key, label_key, reaction_key, entry_reaction_key, entry_key, action_key, opt_eq,
  value_eq, key_eq,
}

opt_eq_refl : (a : Option String) → opt_eq a a ≡ true
opt_eq_refl none = refl
opt_eq_refl (some a) = str_eq_refl a

value_eq_refl : (v : Value) → value_eq v v ≡ true
unfolding value_eq
value_eq_refl null = refl
value_eq_refl (flag b) = ground arith
value_eq_refl (num n) = ==_refl n
value_eq_refl (text s) = str_eq_refl s
value_eq_refl (entity r) =
    rw (str_eq_refl r.post_id, opt_eq_refl r.tier, opt_eq_refl r.status, opt_eq_refl r.title)

pub key_eq_refl : (k : Key) → key_eq k k ≡ true
unfolding key_eq
key_eq_refl (comment_key v) = value_eq_refl v
key_eq_refl (label_key p v) = rw (opt_eq_refl p, value_eq_refl v)
key_eq_refl (reaction_key v) = value_eq_refl v
key_eq_refl (entry_reaction_key v) = value_eq_refl v
key_eq_refl (entry_key p) = opt_eq_refl p
key_eq_refl (action_key a p) = rw (str_eq_refl a, opt_eq_refl p)
