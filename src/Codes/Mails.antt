-- ===== src/Codes/Mails.antt =====
-- The mails of any calls of `issue`.
use wenyouzhan.Common.{
  ℕ, ◌<◌, ◌≡◌, refl, Bool, true, false, ◌&&◌, Option, none, some, List, [], ◌∷◌, ◌==◌, arith,
  if◌then◌else◌, is_value, All-update_where, find_first-update_where_back,
}
use wenyouzhan.Codes.{
  EmailVerification, Verifications, IssueOptions, PreparedIssue, has_id, prepare, mark_delivered,
  send_mail, deliver_prepared, issue, IssueCall, issue_all,
}
use wenyouzhan.Codes.Spacing.{Spaced, Paced, Ready, MayBeReady, prepare-Paced}

send_mail-Paced :
    (p : PreparedIssue) (v : Verifications) → Paced v → Ready p v → Paced (send_mail p v)
send_mail-Paced p v (known, rows, mails, spaced) (early, below, knows) = (
  λ k r there.
      let (a, at, sent) = known k r there in
      (
        a,
        at,
        (
          λ same.
              let e : p.id ≡ k = ground arith in
              let now_at = knows r (rw (← e) at there) in ground (arith, now_at, at),
          sent,
        ),
      ),
  rows,
  (below, mails),
  (early, spaced),
)

mark_delivered-Paced :
    (p : PreparedIssue) (v : Verifications) → Paced v → Paced (mark_delivered p v)
mark_delivered-Paced p v (known, rows, mails, spaced) = (
  λ k r there.
      let (y, found, same) =
        find_first-update_where_back
          (λ (r : EmailVerification).
            r.id == p.id && is_value r.last_send_attempt_at p.send_attempt_at)
          (has_id k) (λ (r : EmailVerification). record r { last_sent_at = some p.send_attempt_at })
          v.rows r (λ y. refl) there in
      let (a, at, sent) = known k y found in (a, ground (arith, same, at), sent),
  All-update_where (λ x. x.id < v.next_id) _ _ v.rows (λ x b. b) rows,
  mails,
  spaced,
)

deliver_prepared-Paced :
    (taken : Bool) (p : PreparedIssue) (v : Verifications)
    → Paced v
    → (p.should_send ≡ true → Ready p v)
    → Paced (deliver_prepared taken p v).1
unfolding deliver_prepared
deliver_prepared-Paced taken p v paced ready = by_tests p.should_send taken ready
  where
    by_tests :
        (sends taken : Bool)
        → (sends ≡ true → Ready p v)
        → let x : Bool × Verifications =
            if sends
            then (if taken
                then (true, mark_delivered p (send_mail p v))
                else (false, send_mail p v))
            else (p.email_sent, v) in
          Paced x.1
    by_tests false taken ready = paced
    by_tests true false ready = send_mail-Paced p v paced (ready refl)
    by_tests true true ready =
        mark_delivered-Paced p (send_mail p v) (send_mail-Paced p v paced (ready refl))

issue-Paced :
    (now : ℕ) (o : IssueOptions) (code : ℕ) (taken : Bool) (v : Verifications)
    → Paced v
    → Paced (issue now o code taken v).1
unfolding issue
issue-Paced now o code taken v paced =
    let (kept, ready) = prepare-Paced now o code v paced in
    by_prepared (prepare now o code v) kept ready
  where
    by_prepared :
        (x : Option PreparedIssue × Verifications)
        → Paced x.1
        → MayBeReady x.0 x.1
        → let y : Option (ℕ × Bool × Bool) × Verifications = elim x.0 [
          | none ↦ (none, x.1)
          | some p ↦ (
            some (p.code, p.resent, (deliver_prepared taken p x.1).0),
            (deliver_prepared taken p x.1).1,
          )
        ] in
          Paced y.1
    by_prepared (none, v') kept ready = kept
    by_prepared (some p, v') kept ready = deliver_prepared-Paced taken p v' kept ready

-- Whatever is asked for and however the mail server answers, two mails for the same record are at
-- least the cool-down of 60 seconds apart, where every record knew its latest mail before.
pub issue_all-Spaced :
    (cs : List IssueCall) (v : Verifications) → Paced v → Spaced (issue_all cs v).mails
unfolding issue_all
issue_all-Spaced [] v paced = paced.3
issue_all-Spaced (c ∷ cs) v paced =
    issue_all-Spaced cs (issue c.now c.options c.code c.taken v).1
      (issue-Paced c.now c.options c.code c.taken v paced)
