-- ===== src/Core/Subscriber.antt =====
-- core/distribution/subscriber.hpp: what a subscriber is, and the two ready-made subscribers.
use winter_square.Common.{Bool}
use winter_square.Core.Types.{NormalizedMessage}

-- `ISubscriber`, over the state `S` of a subscriber. `on_message` answers `false` to unsubscribe.
pub record Subscriber (S : Type 0) : Type 0 where
  pub on_message : S → NormalizedMessage → Bool × S
  pub initialize : S → S
  pub shutdown : S → S

-- `CallbackSubscriber`: a function of the message and of data that the caller owns.
pub record CallbackSubscriber (U : Type 0) : Type 0 where
  pub callback : NormalizedMessage → U → Bool × U
  pub user_data : U

abbrev pub callback_on_message :
    {U : Type 0} → CallbackSubscriber U → NormalizedMessage → Bool × CallbackSubscriber U
callback_on_message s msg =
    let (stay, user_data) = s.callback msg s.user_data in (stay, record s { user_data = user_data })

abbrev pub callback_subscriber : (U : Type 0) → Subscriber (CallbackSubscriber U)
callback_subscriber U = record {
  on_message = callback_on_message;
  initialize = λ s. s;
  shutdown = λ s. s;
}

-- `LambdaSubscriber`: a closure, which is a function over what it captures.
pub record LambdaSubscriber (C : Type 0) : Type 0 where
  pub func : NormalizedMessage → C → Bool × C
  pub captured : C

abbrev pub lambda_on_message :
    {C : Type 0} → LambdaSubscriber C → NormalizedMessage → Bool × LambdaSubscriber C
lambda_on_message s msg =
    let (stay, captured) = s.func msg s.captured in (stay, record s { captured = captured })

abbrev pub lambda_subscriber : (C : Type 0) → Subscriber (LambdaSubscriber C)
lambda_subscriber C = record {
  on_message = lambda_on_message;
  initialize = λ s. s;
  shutdown = λ s. s;
}
