-- ===== src/Examples/Sessions.antt =====
-- The theorems on sessions and transfers at a small server.
use sshinner.Base.{◌≡◌, refl, List, [], ◌∷◌, arith}
use sshinner.Run.{ok, Returns}
use sshinner.Server.{Ptr}
use sshinner.Server.Uuid.{uuid_search, uuid_insert, uuid_erase}
use sshinner.Server.Uuid.Sequence.{in_order}
use sshinner.Server.Uuid.Search.{uuid_search-find}
use sshinner.Server.Uuid.Update.{
  KeepsOrder, IsIndexed, Inserted, Erased, uuid_search-insert, uuid_search-erase,
}
use sshinner.Server.Trans.{create_trans, free_trans, free_all_trans}
use sshinner.Server.Trans.Ports.{IsSession, Created, find_trans-create}
use sshinner.Server.Trans.Release.{Released, find_trans-free}
use sshinner.Server.Trans.Drain.{Outcome, free_all_trans-Drained}
use sshinner.Server.Account.{find_acct_item}
use sshinner.Server.Account.Names.{find_acct_item-first, find_acct_item_longer}
use sshinner.Examples.Data.{
  of_list, test_env, test_server, activ_20, activ_21, activ_22, acct_10, trans_31, trans_32,
}

in_order-of_list : (ps : List Ptr) → in_order (of_list ps) ≡ ps
in_order-of_list [] = refl
in_order-of_list (p ∷ ps) = ground (arith, in_order-of_list ps)

pub test_env-KeepsOrder : KeepsOrder test_env
test_env-KeepsOrder = record { insert_color = λ x t. refl; erases = λ x t. in_order-of_list _ }

pub indexed : IsIndexed test_server
indexed = ((activ_20, refl), omega arith, ((activ_21, refl), omega arith, tt))

pub session : IsSession test_server 20 activ_20
session = record { here = refl; apart = ((trans_31, refl), refl, ((trans_32, refl), refl, tt)) }

uuid_search-find_example : uuid_search 9 test_server.uuid_tree test_server ≡ ok 21 test_server
uuid_search-find_example = uuid_search-find test_server 9 0 test_server.uuid_tree indexed

uuid_search-insert_example : Returns (Inserted test_server 22) (uuid_insert test_env 22 test_server)
uuid_search-insert_example =
    uuid_search-insert test_env test_env-KeepsOrder test_server 22 indexed (activ_22, refl)

uuid_search-erase_example : Returns (Erased test_server 20) (uuid_erase test_env 20 test_server)
uuid_search-erase_example =
    uuid_search-erase test_env test_env-KeepsOrder test_server 20 indexed refl

find_trans-create_example :
    Returns (Created test_server 20 activ_20 22 40) (create_trans 20 22 test_server)
find_trans-create_example =
    find_trans-create test_server 20 22 40 (41 ∷ 42 ∷ 43 ∷ []) activ_20 session refl (omega arith)
      refl

find_trans-free_example :
    Returns (Released test_server 20 activ_20 31 trans_31) (free_trans 20 31 test_server)
find_trans-free_example =
    find_trans-free test_server 20 31 activ_20 trans_31 session refl refl (omega arith) refl
      (omega arith)

free_all_trans-Drained_example : Outcome test_server 20 activ_20 (free_all_trans 20 test_server)
free_all_trans-Drained_example = free_all_trans-Drained test_server 20 activ_20 session

find_acct_item-first_example :
    find_acct_item (b'b' ∷ b'O' ∷ b'b' ∷ b'2' ∷ []) 3 test_server ≡ ok 10 test_server
find_acct_item-first_example =
    find_acct_item-first test_server (b'b' ∷ b'O' ∷ b'b' ∷ b'2' ∷ []) 3 ((acct_10, refl), tt)

find_acct_item_longer_example :
    find_acct_item (b'B' ∷ b'o' ∷ b'b' ∷ b'2' ∷ []) 3 test_server ≡ ok 10 test_server
find_acct_item_longer_example =
    find_acct_item_longer test_server 10 [] acct_10 (b'2' ∷ []) refl refl
