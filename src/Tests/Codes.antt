-- ===== src/Tests/Codes.antt =====
-- Three calls for one code, and one for another user.
use wenyouzhan.Common.{ℕ, ◌+◌, true, false, some, List, [], ◌∷◌, tables}
use wenyouzhan.Codes.{password_reset, Verifications, IssueOptions, IssueCall, issue_all}
use wenyouzhan.Codes.Spacing.{Spaced, Paced}
use wenyouzhan.Codes.Mails.{issue_all-Spaced}

abbrev for_user : ℕ → IssueOptions
for_user id = record {
  type_of = password_reset;
  user_id = some id;
  email = some (id + 600);
  resend_if_same_email = false;
}

abbrev calls : List IssueCall
calls =
    record { now = 100_000; options = for_user 10; code = 123_456; taken = true }
    ∷ record { now = 110_000; options = for_user 10; code = 234_567; taken = true }
    ∷ record { now = 120_000; options = for_user 11; code = 345_678; taken = false }
    ∷ record { now = 170_000; options = for_user 10; code = 456_789; taken = true }
    ∷ []

abbrev no_codes : Verifications
no_codes = record { rows = []; next_id = 1; mails = [] }

no_codes-Paced : Paced no_codes
unfolding tables
no_codes-Paced = (λ k r there. cc, tt, tt, tt)

issue_all-Spaced_example : Spaced (issue_all calls no_codes).mails
issue_all-Spaced_example = issue_all-Spaced calls no_codes no_codes-Paced
