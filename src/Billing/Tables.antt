-- ===== src/Billing/Tables.antt =====
-- The rows of crates/zap-stream-db/src/model.rs, with the columns that the modelled code decides by or
-- bills with, and the tables. Keys, hashes, names and stream ids are numbers, which the code compares;
-- times are in milliseconds.
use zap_stream_core.Prelude.{ℕ, Bool, Option, List, [], ◌∷◌, ◌==◌, if◌then◌else◌, find}
use zap_stream_core.Prelude.Int.{ℤ}

pub record User : Type 0 where
  pub id : ℕ
  pub pubkey : ℕ
  pub balance : ℤ
  pub stream_key : ℕ
  pub is_blocked : Bool
  pub stream_dump_recording : Bool
  pub nwc : Option ℕ

pub data UserStreamState : Type 0 where
  unknown planned live ended : UserStreamState

pub record UserStream : Type 0 where
  pub id : ℕ
  pub user_id : ℕ
  pub starts : ℕ
  pub ends : Option ℕ
  pub state : UserStreamState
  pub cost : ℤ
  pub duration : ℤ
  pub endpoint_id : Option ℕ
  pub node_name : Option ℕ
  pub stream_key_id : Option ℕ

pub record UserStreamKey : Type 0 where
  pub id : ℕ
  pub user_id : ℕ
  pub key : ℕ
  pub expires : Option ℕ
  pub stream_id : ℕ

pub data PaymentType : Type 0 where
  top_up zap credit withdrawal admission_fee : PaymentType

pub record Payment : Type 0 where
  pub payment_hash : ℕ
  pub user_id : ℕ
  pub is_paid : Bool
  pub amount : ℤ
  pub created : ℕ
  pub expires : ℕ
  pub payment_type : PaymentType
  pub fee : ℤ

pub record IngestEndpoint : Type 0 where
  pub id : ℕ
  pub name : ℕ
  pub cost : ℕ

-- `next_user` is the auto-increment counter of the table of users.
pub record ZapStreamDb : Type 0 where
  pub users : List User
  pub streams : List UserStream
  pub payments : List Payment
  pub stream_keys : List UserStreamKey
  pub endpoints : List IngestEndpoint
  pub next_user : ℕ

-- `select * from user where id = ?`, by the primary key.
abbrev pub user_by_id : ℕ → List User → Option User
user_by_id uid = find λ u. u.id == uid

abbrev pub stream_by_id : ℕ → List UserStream → Option UserStream
stream_by_id id = find λ s. s.id == id

abbrev pub payment_by_hash : ℕ → List Payment → Option Payment
payment_by_hash hash = find λ p. p.payment_hash == hash

-- `update user set … where id = ?`.
abbrev pub update_user : ℕ → (User → User) → List User → List User
update_user uid f [] = []
update_user uid f (u ∷ users) = (if u.id == uid then f u else u) ∷ update_user uid f users

abbrev pub update_stream_row : ℕ → (UserStream → UserStream) → List UserStream → List UserStream
update_stream_row id f [] = []
update_stream_row id f (s ∷ streams) =
    (if s.id == id then f s else s) ∷ update_stream_row id f streams

abbrev pub update_payment : ℕ → (Payment → Payment) → List Payment → List Payment
update_payment hash f [] = []
update_payment hash f (p ∷ payments) =
    (if p.payment_hash == hash then f p else p) ∷ update_payment hash f payments
