-- ===== src/Tests/Clubs.antt =====
-- A clan from its creation to a change of its master.
use potg.Base.{[]}
use potg.Base.Tx.{Result, ok, err}
use potg.Clans.{ClanTables, create, add_member, transfer_master}

abbrev no_clans : ClanTables
no_clans = record { clans = []; members = []; requests = [] }

abbrev result_of : {A : Type 0} → Result (A × ClanTables) → ClanTables
result_of (ok (a, t)) = t
result_of (err e) = no_clans

abbrev club : ClanTables
club = result_of (create "potg" "PG" 1 4 10 no_clans)

abbrev pair : ClanTables
pair = result_of (add_member 4 2 11 club)

abbrev handed_over : ClanTables
handed_over = result_of (transfer_master 4 2 1 pair)
