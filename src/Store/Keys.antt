-- ===== src/Store/Keys.antt =====
-- Enumerations of the schema, and the template texts that serve as idempotency keys. A key such as
-- `level-up:${event.id}:${level}` is a constructor with its parts: ids contain no colon, so two
-- such texts are equal when their template and their parts are.
use wenyouzhan.Common.{ℕ, Bool, false, ◌&&◌, ◌==◌}

pub data MemberRole : Type 0 where
  owner collaborator participant : MemberRole

pub data Visibility : Type 0 where
  public_thread private_thread : Visibility

pub data PostingPolicy : Type 0 where
  participants collaborators players : PostingPolicy

pub data SanctionType : Type 0 where
  suspension ban : SanctionType

pub data ClientPlatform : Type 0 where
  web mobile : ClientPlatform

pub data TipTargetType : Type 0 where
  thread_target user_target moment_target : TipTargetType

-- `ExperienceEventType`: the types that `EXPERIENCE_RULES` grants.
pub data GrantableType : Type 0 where
  daily_check_in thread_published private_thread_activated post_created : GrantableType
  thread_reply_received thread_liked moment_published moment_comment_created : GrantableType
  moment_reply_received tip_sent tip_received : GrantableType

-- `type` of an experience event: granted by a rule, or the reversal of one.
pub data EventType : Type 0 where
  granted : GrantableType → EventType
  reversal : EventType

-- The counter columns of `experience_daily_stats`.
pub data Counter : Type 0 where
  check_in_count thread_publish_count post_create_count received_reply_count : Counter
  received_like_count moment_publish_count moment_comment_count : Counter
  moment_reply_received_count tip_sent_count tip_received_count : Counter

-- The column's place in the table, by which two counters are compared.
abbrev pub column : Counter → ℕ
column check_in_count = 0
column thread_publish_count = 1
column post_create_count = 2
column received_reply_count = 3
column received_like_count = 4
column moment_publish_count = 5
column moment_comment_count = 6
column moment_reply_received_count = 7
column tip_sent_count = 8
column tip_received_count = 9

-- `idempotencyKey` of an experience event. `caller_key` is a text that an event listener chose.
pub data ExperienceKey : Type 0 where
  check_in_key : (user_id date_key : ℕ) → ExperienceKey
  reversal_key : (event_id : ℕ) → ExperienceKey
  caller_key : (text : ℕ) → ExperienceKey

abbrev pub experience_key_eq : ExperienceKey → ExperienceKey → Bool
experience_key_eq (check_in_key u d) (check_in_key v e) = u == v && d == e
experience_key_eq (reversal_key i) (reversal_key j) = i == j
experience_key_eq (caller_key t) (caller_key r) = t == r
experience_key_eq _ _ = false

-- `eventKey` of an outbox row.
pub data EventKey : Type 0 where
  level_up_key : (event_id level : ℕ) → EventKey
  tip_completed_key : (transaction_id : ℕ) → EventKey
  user_followed_key : (actor_id target_id event_id : ℕ) → EventKey
  thread_liked_key : (thread_id user_id event_id : ℕ) → EventKey
  thread_unliked_key : (thread_id user_id event_id : ℕ) → EventKey
  collaborator_role_key : (event_id : ℕ) → EventKey
  direct_message_key : (message_id : ℕ) → EventKey

abbrev pub event_key_eq : EventKey → EventKey → Bool
event_key_eq (level_up_key e l) (level_up_key f m) = e == f && l == m
event_key_eq (tip_completed_key t) (tip_completed_key r) = t == r
event_key_eq (user_followed_key a t e) (user_followed_key b r f) = a == b && (t == r && e == f)
event_key_eq (thread_liked_key t u e) (thread_liked_key r v f) = t == r && (u == v && e == f)
event_key_eq (thread_unliked_key t u e) (thread_unliked_key r v f) = t == r && (u == v && e == f)
event_key_eq (collaborator_role_key e) (collaborator_role_key f) = e == f
event_key_eq (direct_message_key a) (direct_message_key b) = a == b
event_key_eq _ _ = false
