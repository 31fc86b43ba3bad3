-- ===== src/Interview/Ledger.antt =====
-- The ledger that the replay of the event log builds (lib/interview.mjs: BUDGETS, budgetFor and the
-- values that replayInterview keeps). A content head of -1 is `none`.
use masterplan.Common.{
  ℕ, Bool, true, false, List, [], Option, none, some, Text, if◌then◌else◌, eqb, nat_eq,
  text_eq_instance,
}
use masterplan.Interview.Events.{Kind, Intent, Payload, CriticEvent}

pub record Budget : Type 0 where
  pub floor : ℕ
  pub intent_floor : ℕ
  pub intent_rounds_min : ℕ
  pub cap : ℕ
  pub critic_off : Bool

pub data Complexity : Type 0 where
  low medium high : Complexity
  other_complexity : Text → Complexity

-- BUDGETS and budgetFor.
unfoldable pub budget_for : Complexity → Budget
budget_for low = record {
  floor = 1;
  intent_floor = 1;
  intent_rounds_min = 1;
  cap = 4;
  critic_off = true;
}
budget_for high = record {
  floor = 8;
  intent_floor = 6;
  intent_rounds_min = 4;
  cap = 20;
  critic_off = false;
}
budget_for _ = record {
  floor = 4;
  intent_floor = 3;
  intent_rounds_min = 2;
  cap = 10;
  critic_off = false;
}

pub record Question : Type 0 where
  pub id : Text
  pub round : ℕ
  pub kind : Kind
  pub body : Text
  pub answer : Option Text
  pub corrected : Bool
  pub withdrawn : Bool
  pub supersedes : Option Text
  pub resolves : Option Text
  pub index : ℕ

pub record Round : Type 0 where
  pub number : ℕ
  pub sealed : Bool
  pub kinds : List Kind
  pub first_question_index : ℕ
  pub last_content_event_index : Option ℕ

pub record Draft : Type 0 where
  pub intent : Intent
  pub sha : Text
  pub index : ℕ

pub record Receipt : Type 0 where
  pub event : CriticEvent
  pub payload : Option Payload
  pub tampered : Bool
  pub valid : Bool
  pub index : ℕ

pub record Unavailability : Type 0 where
  pub error : Text
  pub content_head : Option ℕ
  pub index : ℕ

pub data CriticMode : Type 0 where
  off on unavailable : CriticMode

abbrev pub is_unavailable : CriticMode → Bool
is_unavailable unavailable = true
is_unavailable _ = false

pub record Replay : Type 0 where
  pub questions : List Question
  pub rounds : List Round
  pub drafts : List Draft
  pub receipts : List Receipt
  pub unavailability : List Unavailability
  pub asked : ℕ
  pub answered : ℕ
  pub withdrawn : ℕ
  pub content_head : Option ℕ
  pub terminal : Option Text
  pub terminal_reason : Option Text
  pub reopened : Bool
  pub critic_mode : CriticMode
  pub unavail_at_head : ℕ
  pub last_unavail_head : Option ℕ
  pub unavail_ack : Option Text

-- `a === b` of two heads.
abbrev pub same_head : Option ℕ → Option ℕ → Bool
same_head none none = true
same_head (some m) (some n) = eqb m n
same_head _ _ = false

unfoldable pub initial : Budget → Replay
initial b = record {
  questions = [];
  rounds = [];
  drafts = [];
  receipts = [];
  unavailability = [];
  asked = 0;
  answered = 0;
  withdrawn = 0;
  content_head = none;
  terminal = none;
  terminal_reason = none;
  reopened = false;
  critic_mode = if b.critic_off then off else on;
  unavail_at_head = 0;
  last_unavail_head = none;
  unavail_ack = none;
}
