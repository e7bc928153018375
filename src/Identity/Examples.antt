-- ===== src/Identity/Examples.antt =====
-- The theorems on the platform's comments at a configuration with an own account.
use specseed.Prelude.{◌≡◌, refl, true, false, none, some, [], ◌∷◌}
use specseed.Config.{Config}
use specseed.Identity.{
  platform_comment, platform_username, is_platform_comment, needs_comment_prefix,
}
use specseed.Identity.Loop.{platform_comment-known}

abbrev with_bot : Config
with_bot = record {
  platform_username = some "robot";
  approvals = some (record {
    approver_usernames = "ann" ∷ [];
    bot_usernames = [];
    bot_username = [];
    allow_any_approver = none;
  });
  approver_usernames = [];
  permission_approvers = [];
  bot_usernames = [];
  bot_username = [];
  allow_any_approver = none;
  recovery_enabled = none;
  max_retries = none;
}

bot_posts : platform_username with_bot ≡ some "robot"
unfolding platform_username
bot_posts = refl

platform_comment-known_example :
    is_platform_comment
      (some "robot")
      (some (platform_comment "Started." with_bot))
      (platform_username with_bot)
    ≡ true
platform_comment-known_example = platform_comment-known "Started." "robot" with_bot (λ e. bot_posts)

no_prefix : needs_comment_prefix with_bot ≡ false
unfolding needs_comment_prefix
no_prefix = refl
