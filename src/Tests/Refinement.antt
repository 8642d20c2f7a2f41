-- ===== src/Tests/Refinement.antt =====
-- A run of the store's writes beside the same run of its specification.
use ln_node.Prelude.{◌≡◌, List, [], ◌∷◌, refl}
use ln_node.Kv.Memory.{memory_store as memory, memory_store-IsLawful as lawful}
use ln_node.Storage.Store.{add_payment, update_payment, remove_payment, add_peer, remove_peer}
use ln_node.Storage.Store.Refinement.{
  Write, adds, updates, removes, adds_peer, removes_peer, payments, performed_all, specified_all,
  store_refines,
}
use ln_node.Tests.Formats.{plain_formats as plain, plain_formats-IsFaithful as faithful}
use ln_node.Tests.Samples.{sample_payment, sample_peer}

abbrev calls : List Write
calls =
    adds sample_payment
    ∷ adds_peer sample_peer
    ∷ updates sample_payment
    ∷ removes (1 ∷ [])
    ∷ removes_peer (2 ∷ [])
    ∷ removes (4 ∷ 2 ∷ [])
    ∷ []

store_refines_example :
    payments memory plain (performed_all memory plain calls [])
    ≡ specified_all calls (payments memory plain [])
store_refines_example = store_refines memory plain lawful faithful calls [] (
    unfold add_payment update_payment remove_payment add_peer remove_peer in
    (refl, (refl, (refl, (refl, (refl, (refl, tt)))))))
