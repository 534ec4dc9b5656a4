-- ===== src/Tests/Tables.antt =====
-- The ticket table, with one ticket and with eight.
use vdht.Base.{
  ◌≡◌, refl, Bool, true, List, [], ◌∷◌, replicate, some, none, ok, fault, arith, pos, ℕ, ◌>>=◌, Run,
}
use vdht.TcktSpace
use vdht.TcktSpace.{
  TcktSpace, Ticket, Info, check, srvc, conn, nonce_args, Event, number_addr, proto_unknown,
}
use vdht.TcktSpace.Settle.{Tidy, once}
use vdht.TcktSpace.Check.{check_ticket_full}
use vdht.TcktSpace.Reap.{Reaped, timed_reap-alive, clear-Holds}
use vdht.Varray.{Varray}
use vdht.Varray.Holds.{Holds, stored}

abbrev query : Ticket
query = record { ts = pos 100; info = check 77 }

abbrev probe : Ticket
probe = record { ts = pos 103; info = srvc (replicate 20 9) 1 2 3 }

abbrev table : TcktSpace
table = record {
  overdue_tmo = 3;
  tickets = record {
    used = 2;
    capc = 4;
    first = 4;
    items = some (some probe ∷ some query ∷ none ∷ none ∷ []);
  };
}

table-Holds : Holds table.tickets (probe ∷ query ∷ [])
table-Holds = stored (probe ∷ query ∷ []) (none ∷ none ∷ []) 4 (omega arith)

table-Tidy : Tidy table.tickets (probe ∷ query ∷ [])
table-Tidy = record { holds = table-Holds; free = omega arith; even = refl; capacity = once }

timed_reap-alive_example :
    (w : Varray Ticket) × (ks : List Ticket) × (es : List Event) × (TcktSpace.timed_reap true 3
        table 106
      ≡ ok (some (record table { tickets = w }, es)))
    × Tidy w ks
    × Reaped 106 3 (probe ∷ query ∷ []) ks es
timed_reap-alive_example =
    timed_reap-alive 3 table 106 (probe ∷ query ∷ []) (omega arith) table-Tidy

clear-Holds_example :
    (w : Varray Ticket) × (TcktSpace.clear true 3 table
      ≡ ok (some (record table { tickets = w }, query ∷ probe ∷ [])))
    × Holds w []
clear-Holds_example = clear-Holds 3 table (probe ∷ query ∷ []) (omega arith) table-Holds

abbrev eight : List Ticket
eight = query ∷ replicate 7 probe

abbrev full_table : TcktSpace
full_table = record {
  overdue_tmo = 3;
  tickets = record {
    used = 8;
    capc = 8;
    first = 8;
    items = some (some query ∷ replicate 7 (some probe));
  };
}

check_ticket_full_example : TcktSpace.check_ticket true 9 full_table (nonce_args 77) ≡ fault
check_ticket_full_example =
    check_ticket_full 8 full_table (nonce_args 77) query (replicate 7 probe) []
      (stored eight [] 8 (omega arith)) refl refl

-- Eight queries fill the table of a new node; the answer to any of them is then a fault.
abbrev asked : ℕ → Run (TcktSpace × Bool) → Run (TcktSpace × Bool)
asked nonce r = r >>= λ s. TcktSpace.add_ticket true true s.0 100 (check nonce)

eight_queries :
    (asked 8 (
        asked 7
          (asked 6 (asked 5 (asked 4 (asked 3 (asked 2 (asked 1 (ok (TcktSpace.init, true)))))))))
      >>= λ s. TcktSpace.check_ticket true 9 s.0 (nonce_args 8))
    ≡ fault
unfolding TcktSpace.check_ticket TcktSpace.add_ticket TcktSpace.init
eight_queries = refl
