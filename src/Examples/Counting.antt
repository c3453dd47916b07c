-- ===== src/Examples/Counting.antt =====
-- What the subscribers of the examples share: a printed line, and counting messages.
use winter_square.Common.{ℕ, ◌+◌, Bool, List, [], ◌∷◌, if◌then◌else◌}
use winter_square.Core.Types.{NormalizedMessage, MessageKind}

-- `a == b` of two types.
unfoldable pub kind_number : MessageKind → ℕ
kind_number MessageKind.unknown = 0
kind_number MessageKind.trade = 1
kind_number MessageKind.quote = 2
kind_number MessageKind.order_add = 3
kind_number MessageKind.order_modify = 4
kind_number MessageKind.order_delete = 5
kind_number MessageKind.order_execute = 6
kind_number MessageKind.imbalance = 7
kind_number MessageKind.system_event = 8

-- How many messages of a list pass a test.
unfoldable pub tally : (NormalizedMessage → Bool) → List NormalizedMessage → ℕ
tally p [] = 0
tally p (m ∷ ms) = (if p m then 1 else 0) + tally p ms
