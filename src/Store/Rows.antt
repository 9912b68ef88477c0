-- ===== src/Store/Rows.antt =====
-- The rows of the database tables that the modelled services read and write, with the columns
-- that they use. Ids, digests and texts that the code only compares are numbers, an instant is its
-- `getTime()` in milliseconds, NULL is `none`.
use wenyouzhan.Common.{ℕ, Bool, Option}
use wenyouzhan.Common.Int.{ℤ}
use wenyouzhan.Store.Keys.{
  MemberRole, Visibility, SanctionType, ClientPlatform, TipTargetType, EventType, Counter,
  ExperienceKey, EventKey,
}

pub record User : Type 0 where
  pub id : ℕ
  pub username : ℕ
  pub email : ℕ
  pub password : ℕ
  pub experience : ℕ
  pub level : ℕ
  pub failed_login_attempts : ℕ
  pub locked_until : Option ℕ
  pub deleted_at : Option ℕ

pub record UserSanction : Type 0 where
  pub user_id : ℕ
  pub kind : SanctionType
  pub starts_at : ℕ
  pub ends_at : Option ℕ
  pub revoked_at : Option ℕ

pub record UserBlock : Type 0 where
  pub blocker_id : ℕ
  pub blocked_id : ℕ

pub record UserFollow : Type 0 where
  pub follower_id : ℕ
  pub following_id : ℕ

pub record Thread : Type 0 where
  pub id : ℕ
  pub owner_id : ℕ
  pub title : Option ℕ
  pub published : Bool
  pub visibility : Visibility
  pub deleted_at : Option ℕ
  pub like_count : ℕ
  pub tip_total : ℕ

pub record ThreadMember : Type 0 where
  pub id : ℕ
  pub thread_id : ℕ
  pub user_id : ℕ
  pub role : MemberRole
  pub player_marked : Bool

pub record ThreadLike : Type 0 where
  pub thread_id : ℕ
  pub user_id : ℕ

pub record ThreadInvite : Type 0 where
  pub thread_id : ℕ
  pub token : ℕ

-- `none` in `target_user_id` is a subscription of the whole thread (`type` THREAD).
pub record Subscription : Type 0 where
  pub id : ℕ
  pub user_id : ℕ
  pub thread_id : ℕ
  pub is_user_type : Bool
  pub target_user_id : Option ℕ

pub record Moment : Type 0 where
  pub id : ℕ
  pub author_id : ℕ
  pub title : ℕ
  pub deleted_at : Option ℕ
  pub tip_total : ℕ

pub record Wallet : Type 0 where
  pub id : ℕ
  pub user_id : Option ℕ
  pub balance : ℕ
  pub received_tip_total : ℕ
  pub received_tip_count : ℕ

-- `tip` tells the two values of `type`: TIP and DAILY_CHECK_IN.
pub record WalletTransaction : Type 0 where
  pub id : ℕ
  pub tip : Bool
  pub sender_wallet_id : Option ℕ
  pub recipient_wallet_id : ℕ
  pub platform_wallet_id : Option ℕ
  pub target_type : Option TipTargetType
  pub target_thread_id : Option ℕ
  pub target_user_id : Option ℕ
  pub target_moment_id : Option ℕ
  pub gross_amount : ℕ
  pub recipient_amount : ℕ
  pub platform_amount : ℕ
  pub sender_balance_after : Option ℕ
  pub recipient_balance_after : ℕ
  pub platform_balance_after : Option ℕ
  pub thread_tip_total_after : Option ℕ
  pub moment_tip_total_after : Option ℕ
  pub recipient_tip_total_after : ℕ
  pub recipient_tip_count_after : ℕ
  pub client_request_id : Option ℕ
  pub request_hash : Option ℕ
  pub date_key : Option ℕ

pub record DailyCheckIn : Type 0 where
  pub user_id : ℕ
  pub wallet_id : ℕ
  pub wallet_transaction_id : ℕ
  pub date_key : ℕ
  pub reward_amount : ℕ
  pub experience_awarded : ℕ

pub record ExperienceEvent : Type 0 where
  pub id : ℕ
  pub user_id : ℕ
  pub event_type : EventType
  pub delta : ℤ
  pub date_key : ℕ
  pub idempotency_key : ExperienceKey
  pub source_id : Option ℕ
  pub reversed_at : Option ℕ

pub record ExperienceDailyStat : Type 0 where
  pub user_id : ℕ
  pub date_key : ℕ
  pub counts : Counter → ℕ
  pub experience_awarded : ℕ

pub record RefreshToken : Type 0 where
  pub id : ℕ
  pub user_id : ℕ
  pub token_hash : ℕ
  pub family : ℕ
  pub platform : ClientPlatform
  pub device_info : Option ℕ
  pub session_started_at : ℕ
  pub expires_at : ℕ
  pub revoked_at : Option ℕ
  pub created_at : ℕ

-- The payloads of the domain events (src/outbox/domain-events.ts) that the services enqueue.
pub data DomainEvent : Type 0 where
  user_level_up : (user_id previous_level level experience : ℕ) → DomainEvent
  tip_completed :
      (transaction_id sender_id recipient_id : ℕ) (target : TipTargetType)
      (thread_id moment_id : Option ℕ) (gross recipient_amount platform_amount : ℕ)
      (thread_tip_total moment_tip_total : Option ℕ)
      → DomainEvent
  user_followed : (actor_id target_id : ℕ) → DomainEvent
  thread_liked_event : (event_id thread_id owner_id user_id : ℕ) → DomainEvent
  thread_unliked_event : (event_id thread_id : ℕ) → DomainEvent
  collaborator_role_changed :
      (event_id thread_id actor_id target_user_id : ℕ) (old_role new_role : MemberRole)
      → DomainEvent
  direct_message_created : (message_id conversation_id recipient_id : ℕ) → DomainEvent

pub record OutboxRow : Type 0 where
  pub event_key : EventKey
  pub payload : DomainEvent
