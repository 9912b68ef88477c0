-- ===== src/Codes/Spacing.antt =====
-- The time between the mails for a record.
use wenyouzhan.Common.{
  ℕ, ◌+◌, ◌≤◌, ◌<◌, ◌≡◌, refl, inl, inr, Bool, true, false, Bool-cases, Option, none, some, List,
  [], ◌∷◌, ◌==◌, arith, if◌then◌else◌, find_first, update_first, All, All-map, All-insert,
  All-update_first, All-remove_where, All-find_first, find_first-satisfies,
  find_first-update_first_self, find_first-update_first_other, find_first-insert-none,
  find_first-insert-some, find_first-absent, find_first-remove_where_self,
  find_first-remove_where_other, Option-cases,
}
use wenyouzhan.Codes.{
  EmailVerification, Mail, Verifications, IssueOptions, PreparedIssue, is_for, is_reusable, has_id,
  is_cool, attempted, waiting, resend, claim_existing, new_row, delete_row, create_row, prepare,
}

-- The mails for one record are a cool-down apart, the latest first.
abbrev pub Spaced : List Mail → Type 0
Spaced [] = Unit
Spaced (e ∷ es) =
    All (λ x. (x.record_id == e.record_id) ≡ true → x.sent_at + 60_000 ≤ e.sent_at) es × Spaced es

abbrev pub SentBy : ℕ → ℕ → List Mail → Type 0
SentBy k at mails = All (λ x. (x.record_id == k) ≡ true → x.sent_at ≤ at) mails

-- A record's attempt is not before its mails.
abbrev pub Attempted : Verifications → Type 0
Attempted v =
    (k : ℕ) (r : EmailVerification)
    → find_first (has_id k) v.rows ≡ some r
    → (a : ℕ) × (r.last_send_attempt_at ≡ some a) × SentBy k a v.mails

abbrev pub Paced : Verifications → Type 0
Paced v =
    Attempted v
    × All (λ r. r.id < v.next_id) v.rows
    × All (λ x. x.record_id < v.next_id) v.mails
    × Spaced v.mails

-- The mail that is to be sent keeps its distance, and its record knows of it.
abbrev pub Ready : PreparedIssue → Verifications → Type 0
Ready p v =
    All (λ x. (x.record_id == p.id) ≡ true → x.sent_at + 60_000 ≤ p.send_attempt_at) v.mails
    × (p.id < v.next_id)
    × ((r : EmailVerification)
        → find_first (has_id p.id) v.rows ≡ some r
        → r.last_send_attempt_at ≡ some p.send_attempt_at)

abbrev pub MayBeReady : Option PreparedIssue → Verifications → Type 0
MayBeReady none v = Unit
MayBeReady (some p) v = p.should_send ≡ true → Ready p v

apart_ids :
    (id k : ℕ) (x : EmailVerification) → (id == k) ≡ false → has_id id x ≡ true → has_id k x ≡ false
apart_ids id k x other hit = ground arith

-- The window of a record is taken.
resend-Paced :
    (now k : ℕ) (latest : EmailVerification) (v : Verifications)
    → Paced v
    → find_first (has_id k) v.rows ≡ some latest
    → is_cool now latest ≡ true
    → let v' : Verifications = record v { rows = update_first (has_id k) (attempted now) v.rows } in
      Paced v'
      × (All (λ x. (x.record_id == k) ≡ true → x.sent_at + 60_000 ≤ now) v.mails
          × (k < v.next_id)
          × ((r : EmailVerification)
              → find_first (has_id k) v'.rows ≡ some r
              → r.last_send_attempt_at ≡ some now))
resend-Paced now k latest v (known, rows, mails, spaced) found cool =
    let (a, at, sent) = known k latest found in
    let hit = find_first-satisfies (has_id k) v.rows latest found in
    let here = find_first-update_first_self (has_id k) (attempted now) v.rows latest hit found in
    let early : a + 60_000 ≤ now = ground (arith, cool, at) in
    let below = All-find_first (λ x. x.id < v.next_id) (has_id k) v.rows latest rows found in
    (
      (
        λ j r there. elim (Bool-cases (k == j)) [
          | inl same ↦
              let e : k ≡ j = ground arith in
              let e' : attempted now latest ≡ r = ground (arith, here, rw (← e) at there) in
              (
                now,
                rw (← e') refl,
                rw (← e) (All-map (λ x h i. omega (arith, h i, early)) v.mails sent),
              )
          | inr other ↦ known j r (
              ground (
                arith,
                there,
                find_first-update_first_other (has_id k) (has_id j) (attempted now) v.rows
                    λ x h. (apart_ids k j x other h, apart_ids k j (attempted now x) other h),
              ))
        ],
        All-update_first (λ x. x.id < v.next_id) (has_id k) (attempted now) v.rows (λ x e b. b)
            rows,
        mails,
        spaced,
      ),
      (
        All-map (λ x h i. omega (arith, h i, early)) v.mails sent,
        ground (arith, hit, below),
        λ r there. ground (arith, here, there),
      ),
    )

waiting-quiet :
    (r : EmailVerification) (p : PreparedIssue) → waiting r ≡ some p → p.should_send ≡ false
waiting-quiet r p h = ground arith

quiet :
    (x : Option PreparedIssue) (v : Verifications)
    → ((p : PreparedIssue) → x ≡ some p → p.should_send ≡ false)
    → MayBeReady x v
quiet none v h = tt
quiet (some p) v h = λ sends. absurd (let e = h p refl in cc)

claim_existing-Paced :
    (now : ℕ) (r : EmailVerification) (v : Verifications)
    → Paced v
    → Paced (claim_existing now r v).1
      × MayBeReady (claim_existing now r v).0 (claim_existing now r v).1
unfolding claim_existing
claim_existing-Paced now r v paced = by_row (find_first (has_id r.id) v.rows) refl
  where
    taken : Verifications
    taken = record v { rows = update_first (has_id r.id) (attempted now) v.rows }

    by_cool :
        (latest : EmailVerification) (cool : Bool)
        → find_first (has_id r.id) v.rows ≡ some latest
        → is_cool now latest ≡ cool
        → let x : Option PreparedIssue × Verifications =
            if cool then (some (resend now r), taken) else (waiting latest, v) in
          Paced x.1 × MayBeReady x.0 x.1
    by_cool latest true found cool =
        let (kept, ready) = resend-Paced now r.id latest v paced found cool in
        (kept, λ sends. ready)
    by_cool latest false found cool = (paced, quiet (waiting latest) v (waiting-quiet latest))

    by_row :
        (o : Option EmailVerification)
        → find_first (has_id r.id) v.rows ≡ o
        → let x : Option PreparedIssue × Verifications = elim o [
          | none ↦ (none, v)
          | some latest ↦
              if is_cool now latest then (some (resend now r), taken) else (waiting latest, v)
        ] in
          Paced x.1 × MayBeReady x.0 x.1
    by_row none found = (paced, tt)
    by_row (some latest) found = by_cool latest (is_cool now latest) found refl

delete_row-Paced : (k : ℕ) (v : Verifications) → Paced v → Paced (delete_row k v)
delete_row-Paced k v (known, rows, mails, spaced) = (
  λ j r there. elim (Bool-cases (k == j)) [
    | inl same ↦ absurd (
        let e : k ≡ j = ground arith in
        let gone = find_first-remove_where_self (has_id k) v.rows in
        let there' = rw (← e) at there in ground (arith, gone, there'))
    | inr other ↦ known j r (
        ground (
          arith,
          there,
          find_first-remove_where_other (has_id k) (has_id j) v.rows (λ x. apart_ids k j x other),
        ))
  ],
  All-remove_where (λ x. x.id < v.next_id) (has_id k) v.rows rows,
  mails,
  spaced,
)

-- No mail was sent for an id that is not given out yet.
no_mails :
    (n at : ℕ) (mails : List Mail)
    → All (λ x. x.record_id < n) mails
    → All (λ x. (x.record_id == n) ≡ true → x.sent_at + 60_000 ≤ at) mails
no_mails n at mails h = All-map (λ x b i. absurd (ground (arith, b, i))) mails h

create_row-Paced :
    (now : ℕ) (o : IssueOptions) (code : ℕ) (v : Verifications)
    → Paced v
    → Paced (create_row now o code v).1
      × MayBeReady (create_row now o code v).0 (create_row now o code v).1
unfolding create_row
create_row-Paced now o code v (known, rows, mails, spaced) =
    let n = v.next_id in
    let row = new_row now n o code in
    let absent =
      find_first-absent (has_id n) v.rows (All-map (λ x b. ground (arith, b)) v.rows rows) in
    let here = find_first-insert-none (has_id n) v.rows row absent in
    let fresh = no_mails n now v.mails mails in
    (
      (
        λ j r there. elim (Option-cases (find_first (has_id j) v.rows)) [
          | inl missing ↦
              let e = find_first-insert-none (has_id j) v.rows row missing in
              let (same, is_row) : (n ≡ j) × (row ≡ r) = ground (arith, e, there) in
              (
                now,
                rw (← is_row) refl,
                rw (← same) (All-map (λ x h i. omega (arith, h i)) v.mails fresh),
              )
          | inr (s, found) ↦
              let e = find_first-insert-some (has_id j) v.rows row s found in
              known j r (ground (arith, e, there, found))
        ],
        All-insert (λ x. x.id < n + 1) v.rows row (All-map (λ x b. omega (arith, b)) v.rows rows)
            (omega arith),
        All-map (λ x b. omega (arith, b)) v.mails mails,
        spaced,
      ),
      λ sends. (fresh, omega arith, λ r there. ground (arith, here, there)),
    )

pub prepare-Paced :
    (now : ℕ) (o : IssueOptions) (code : ℕ) (v : Verifications)
    → Paced v
    → Paced (prepare now o code v).1 × MayBeReady (prepare now o code v).0 (prepare now o code v).1
unfolding prepare
prepare-Paced now o code v paced = by_row (find_first (is_for o) v.rows)
  where
    by_reuse :
        (r : EmailVerification) (reuse : Bool)
        → let x : Option PreparedIssue × Verifications =
            if reuse then claim_existing now r v else create_row now o code (delete_row r.id v) in
          Paced x.1 × MayBeReady x.0 x.1
    by_reuse r true = claim_existing-Paced now r v paced
    by_reuse r false =
        create_row-Paced now o code (delete_row r.id v) (delete_row-Paced r.id v paced)

    by_row :
        (x : Option EmailVerification)
        → let y : Option PreparedIssue × Verifications = elim x [
          | none ↦ create_row now o code v
          | some r ↦
              if is_reusable now o r
              then claim_existing now r v
              else create_row now o code (delete_row r.id v)
        ] in
          Paced y.1 × MayBeReady y.0 y.1
    by_row none = create_row-Paced now o code v paced
    by_row (some r) = by_reuse r (is_reusable now o r)
