-- ===== src/Tests/Generator.antt =====
-- The generator (examples/itch_generator.cpp) on concrete inputs.
use winter_square.Common.{List, [], ◌∷◌, All, arith}
use winter_square.Common.Int.{pos, negsuc}
use winter_square.Core.Types.{blank}
use winter_square.Itch.Parser
use winter_square.Itch.Generator.{Draw, Round, initial}
use winter_square.Itch.Generator.Numbers.{IsDrawn}
use winter_square.Itch.Generator.Traffic.{IsSent, IsTaken, send_packets-sends, make_messages-parse}

abbrev draws : List Draw
draws =
    record { stock_idx = 3; side = 1; shares = 200; price = 600000; msg_type = 0 }
    ∷ record { stock_idx = 9; side = 0; shares = 300; price = 700000; msg_type = 1 }
    ∷ record { stock_idx = 0; side = 0; shares = 500; price = 800000; msg_type = 2 }
    ∷ []

draws-IsDrawn : All IsDrawn draws
draws-IsDrawn = omega arith

-- The second packet is refused.
abbrev rounds : List Round
rounds =
    record { nanos = 100; draws = draws; sent = pos 128 }
    ∷ record { nanos = 200; draws = draws; sent = negsuc 0 }
    ∷ []

send_packets-sends_example : IsSent initial rounds
send_packets-sends_example = send_packets-sends rounds (draws-IsDrawn, (draws-IsDrawn, tt))

make_messages-parse_example :
    IsTaken initial 100 draws Parser.initial (blank ∷ blank ∷ blank ∷ []) 3 (7 ∷ []) 55 0
make_messages-parse_example =
    make_messages-parse initial 100 draws Parser.initial (blank ∷ blank ∷ blank ∷ []) 3 (7 ∷ []) 55
      0 (record { sequence = omega arith; orders = omega arith; matches = omega arith })
      draws-IsDrawn (omega arith) (omega arith) (omega arith) (omega arith)
