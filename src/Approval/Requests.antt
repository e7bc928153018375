-- ===== src/Approval/Requests.antt =====
-- About the approval request whose reactions are read.
use specseed.Prelude.{
  String, ◌≡◌, inl, inr, true, false, some, List, [], ◌∷◌, ◌++◌, Bool-cases, if◌then◌else◌,
}
use specseed.Config.{Config}
use specseed.Entities.{Entity, Comment}
use specseed.Approval.{is_request, request_comment, gate_reaction_users, comment_reaction_users}

request_comment-append :
    (config : Config) (cs : List Comment) (c : Comment)
    → is_request config c ≡ true
    → request_comment config (cs ++ c ∷ []) ≡ some c
unfolding request_comment
request_comment-append config [] c h = rw h
request_comment-append config (x ∷ cs) c h = rw (request_comment-append config cs c h)

request_comment-skip :
    (config : Config) (cs : List Comment) (c : Comment)
    → is_request config c ≡ false
    → request_comment config (cs ++ c ∷ []) ≡ request_comment config cs
unfolding request_comment
request_comment-skip config [] c h = rw h
request_comment-skip config (x ∷ cs) c h = rw (request_comment-skip config cs c h)

-- Once the platform posts a request for approval, the reactions that count for a kind are those on
-- that comment alone, whatever stands on the post and on earlier comments; a comment that is no
-- such request leaves the reactions that count as they were.
pub gate_reaction_users-append :
    (entity : Entity) (kind : String) (config : Config) (cs : List Comment) (c : Comment)
    → gate_reaction_users entity kind config (some (cs ++ c ∷ [])) ≡ (
        if is_request config c
        then comment_reaction_users c kind config
        else gate_reaction_users entity kind config (some cs))
unfolding gate_reaction_users
gate_reaction_users-append entity kind config cs c = elim (Bool-cases (is_request config c)) [
  | inl e ↦ rw (e, request_comment-append config cs c e)
  | inr e ↦ rw (e, request_comment-skip config cs c e)
]
