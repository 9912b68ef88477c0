-- ===== src/Codes.antt =====
-- Verification codes by mail (src/auth/verification-code.service.ts). No other call commits between
-- the lookup of a record and its creation; the recovery from such a conflict is left out. The codes
-- that `randomInt` gives are arguments, and so is whether the mail server takes a mail.
pub mod Spacing
pub mod Mails
use wenyouzhan.Common.{
  ℕ, ◌+◌, Bool, true, false, not, ◌&&◌, ◌||◌, Option, none, some, List, [], ◌∷◌, ◌==◌, ltb, leb,
  if◌then◌else◌, is_value, is_none, find_first, update_first, update_where, remove_where, insert,
}

pub data CodeType : Type 0 where
  registration change_email password_reset : CodeType

abbrev pub same_type : CodeType → CodeType → Bool
same_type registration registration = true
same_type change_email change_email = true
same_type password_reset password_reset = true
same_type _ _ = false

pub record EmailVerification : Type 0 where
  pub id : ℕ
  pub user_id : Option ℕ
  pub email : Option ℕ
  pub token : ℕ
  pub type_of : CodeType
  pub expires_at : ℕ
  pub last_send_attempt_at : Option ℕ
  pub last_sent_at : Option ℕ

-- A mail that was given to the mail server for a record.
pub record Mail : Type 0 where
  pub record_id : ℕ
  pub sent_at : ℕ

-- The table, the id that is given out next, and the mails, the latest first.
pub record Verifications : Type 0 where
  pub rows : List EmailVerification
  pub next_id : ℕ
  pub mails : List Mail

-- `PrepareIssueOptions`
pub record IssueOptions : Type 0 where
  pub type_of : CodeType
  pub user_id : Option ℕ
  pub email : Option ℕ
  pub resend_if_same_email : Bool

-- `PreparedVerificationIssue`
pub record PreparedIssue : Type 0 where
  pub id : ℕ
  pub code : ℕ
  pub resent : Bool
  pub should_send : Bool
  pub email_sent : Bool
  pub send_attempt_at : ℕ

abbrev pub code_ttl : ℕ
code_ttl = 900_000

abbrev pub send_cooldown : ℕ
send_cooldown = 60_000

-- `userId ? { userId, type } : { email, type }`, where an email that is not given is no condition.
abbrev pub is_for : IssueOptions → EmailVerification → Bool
is_for o r = elim o.user_id [
  | some u ↦ is_value r.user_id u && same_type r.type_of o.type_of
  | none ↦ elim o.email [
    | some e ↦ is_value r.email e && same_type r.type_of o.type_of
    | none ↦ same_type r.type_of o.type_of
  ]
]

-- `record.email === email`, where a missing value is one of its own.
abbrev pub same_email : Option ℕ → Option ℕ → Bool
same_email none none = true
same_email (some a) (some b) = a == b
same_email _ _ = false

abbrev pub is_reusable : ℕ → IssueOptions → EmailVerification → Bool
is_reusable now o r =
    ltb now r.expires_at && (not o.resend_if_same_email || same_email r.email o.email)

abbrev pub has_id : ℕ → EmailVerification → Bool
has_id id r = r.id == id

-- No attempt, or one that is `send_cooldown` old.
abbrev pub is_cool : ℕ → EmailVerification → Bool
is_cool now r = elim r.last_send_attempt_at [ none ↦ true | some a ↦ leb (a + send_cooldown) now ]

abbrev pub attempted : ℕ → EmailVerification → EmailVerification
attempted now r = record r { last_send_attempt_at = some now }

-- The answer where the record's window is taken: none where the record has no attempt.
abbrev pub waiting : EmailVerification → Option PreparedIssue
waiting r = elim r.last_send_attempt_at [
  | none ↦ none
  | some a ↦ some (record {
    id = r.id;
    code = r.token;
    resent = true;
    should_send = false;
    email_sent = is_value r.last_sent_at a;
    send_attempt_at = a;
  })
]

abbrev pub resend : ℕ → EmailVerification → PreparedIssue
resend now r = record {
  id = r.id;
  code = r.token;
  resent = true;
  should_send = true;
  email_sent = false;
  send_attempt_at = now;
}

-- `claimExisting`; none where it throws.
unfoldable pub claim_existing :
    ℕ → EmailVerification → Verifications → Option PreparedIssue × Verifications
claim_existing now r v = elim (find_first (has_id r.id) v.rows) [
  | none ↦ (none, v)
  | some latest ↦
      if is_cool now latest
      then (
        some (resend now r),
        record v { rows = update_first (has_id r.id) (attempted now) v.rows },
      )
      else (waiting latest, v)
]

abbrev pub new_row : ℕ → ℕ → IssueOptions → ℕ → EmailVerification
new_row now id o code = record {
  id = id;
  user_id = o.user_id;
  email = o.email;
  token = code;
  type_of = o.type_of;
  expires_at = now + code_ttl;
  last_send_attempt_at = some now;
  last_sent_at = none;
}

abbrev pub delete_row : ℕ → Verifications → Verifications
delete_row id v = record v { rows = remove_where (has_id id) v.rows }

-- A new record and its first mail.
unfoldable pub create_row :
    ℕ → IssueOptions → ℕ → Verifications → Option PreparedIssue × Verifications
create_row now o code v = (
  some (record {
    id = v.next_id;
    code = code;
    resent = false;
    should_send = true;
    email_sent = false;
    send_attempt_at = now;
  }),
  record v { rows = insert (new_row now v.next_id o code) v.rows; next_id = v.next_id + 1 },
)

-- `prepare`
unfoldable pub prepare : ℕ → IssueOptions → ℕ → Verifications → Option PreparedIssue × Verifications
prepare now o code v = elim (find_first (is_for o) v.rows) [
  | none ↦ create_row now o code v
  | some r ↦
      if is_reusable now o r
      then claim_existing now r v
      else create_row now o code (delete_row r.id v)
]

-- `markDelivered`
abbrev pub mark_delivered : PreparedIssue → Verifications → Verifications
mark_delivered p v = record v {
  rows =
      update_where (λ r. r.id == p.id && is_value r.last_send_attempt_at p.send_attempt_at)
        (λ r. record r { last_sent_at = some p.send_attempt_at }) v.rows;
}

abbrev pub send_mail : PreparedIssue → Verifications → Verifications
send_mail p v = record v {
  mails = record { record_id = p.id; sent_at = p.send_attempt_at } ∷ v.mails;
}

-- `deliverPrepared`: whether the mail was sent.
unfoldable pub deliver_prepared : Bool → PreparedIssue → Verifications → Bool × Verifications
deliver_prepared taken p v =
    if p.should_send
    then (if taken then (true, mark_delivered p (send_mail p v)) else (false, send_mail p v))
    else (p.email_sent, v)

-- `issue`: the code, whether it was there before, and whether its mail was sent.
unfoldable pub issue :
    ℕ → IssueOptions → ℕ → Bool → Verifications → Option (ℕ × Bool × Bool) × Verifications
issue now o code taken v =
    let (prepared, v') = prepare now o code v in
    elim prepared [
      | none ↦ (none, v')
      | some p ↦ (
        some (p.code, p.resent, (deliver_prepared taken p v').0),
        (deliver_prepared taken p v').1,
      )
    ]

-- The calls of `issue`, each with its time, options, code and the answer of the mail server.
pub record IssueCall : Type 0 where
  pub now : ℕ
  pub options : IssueOptions
  pub code : ℕ
  pub taken : Bool

unfoldable pub issue_all : List IssueCall → Verifications → Verifications
issue_all [] v = v
issue_all (c ∷ cs) v = issue_all cs (issue c.now c.options c.code c.taken v).1
