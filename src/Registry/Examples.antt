-- ===== src/Registry/Examples.antt =====
-- The registry on the tensors of a decode step.
use recurlocal.Base.{
  ◌≡◌, refl, List, [], ◌∷◌, none, some, if◌then◌else◌, ◌==◌, ◌&&◌, arith, find_index,
}
use recurlocal.Tensor.{TensorHandle, is_valid_desc, same_desc}
use recurlocal.Tensor.Examples.{weight, state, cache}
use recurlocal.Registry.{
  step, Registry, Call, registers, unregisters, clears, empty, find, resolve, run, register_tensor,
  unregister_tensor, unregister_handle, kill_slot, index_of_id, register_at, index_of_pointer,
  insert_slot, append_slot, holds_pointer, is_dead, holds_id, slot_at, same_generation, update_slot,
}
use recurlocal.Registry.Invariant.{IsValid, run-IsValid, empty-IsValid}
use recurlocal.Registry.View.{find-register_tensor, find-unregister_tensor}
use recurlocal.Registry.Handles.{
  resolve-run-none, resolve-run-unregister_handle, resolve-register_tensor,
}
use recurlocal.Registry.Epoch.{run-epoch, register_tensor_again}

-- Two tensors, of which the first is taken away again.
abbrev calls : List Call
calls = registers weight ∷ registers state ∷ unregisters 1 ∷ []

abbrev used : Registry
used = run empty calls

abbrev first_handle : TensorHandle
first_handle = record { id = 1; generation = 1 }

abbrev second_handle : TensorHandle
second_handle = record { id = 2; generation = 1 }

used_next_id : used.next_id ≡ 3
unfolding run step register_tensor unregister_tensor kill_slot index_of_id find_index register_at
    index_of_pointer insert_slot append_slot holds_pointer is_dead holds_id slot_at
used_next_id = refl

used-IsValid : IsValid used
used-IsValid = run-IsValid empty calls empty-IsValid (omega arith)

run-IsValid_example : IsValid (run empty calls)
run-IsValid_example = run-IsValid empty calls empty-IsValid (omega arith)

used_epoch : used.epoch ≡ 3
unfolding run step register_tensor unregister_tensor kill_slot index_of_id find_index register_at
    index_of_pointer insert_slot append_slot holds_pointer is_dead holds_id slot_at
used_epoch = refl

gone : resolve used first_handle ≡ none
unfolding run step register_tensor unregister_tensor kill_slot index_of_id find_index register_at
    index_of_pointer insert_slot append_slot holds_pointer is_dead holds_id slot_at resolve find
    same_generation
gone = refl

resolve-run-none_example : resolve (run used (registers cache ∷ clears ∷ [])) first_handle ≡ none
resolve-run-none_example =
    resolve-run-none used first_handle (registers cache ∷ clears ∷ []) used-IsValid (omega arith)
      (omega (arith, used_next_id)) gone (omega (arith, used_next_id))

resolve-run-unregister_handle_example :
    resolve (run (unregister_handle used second_handle) (registers state ∷ [])) second_handle ≡ none
resolve-run-unregister_handle_example =
    resolve-run-unregister_handle used second_handle (registers state ∷ []) used-IsValid
      (omega (arith, used_next_id)) (omega arith) (omega (arith, used_next_id))

resolve-register_tensor_example :
    let (q, h) = register_tensor used cache in resolve q h ≡ some cache
resolve-register_tensor_example =
    resolve-register_tensor used cache used-IsValid (omega (arith, used_next_id)) refl

find-register_tensor_example :
    let (q, h) = register_tensor used cache in
    find q 2 ≡ (if is_valid_desc cache && h.id == 2 then some cache else find used 2)
find-register_tensor_example =
    find-register_tensor used cache 2 used-IsValid (omega (arith, used_next_id))

find-unregister_tensor_example :
    find (unregister_tensor used 2) 2 ≡ (if 2 == 2 then none else find used 2)
find-unregister_tensor_example = find-unregister_tensor used 2 2 used-IsValid

register_tensor_again_example :
    let (q, h) = register_tensor used cache in register_tensor q cache ≡ (q, h)
register_tensor_again_example =
    register_tensor_again used cache used-IsValid (omega (arith, used_next_id)) refl

-- A declaration that is refused and one that is there already leave the epoch.
idle_epoch : (run used (registers state ∷ unregisters 7 ∷ [])).epoch ≡ used.epoch
unfolding run step register_tensor unregister_tensor kill_slot index_of_id find_index register_at
    index_of_pointer insert_slot append_slot holds_pointer is_dead holds_id slot_at update_slot
    same_desc
idle_epoch = refl

run-epoch_example : run used (registers state ∷ unregisters 7 ∷ []) ≡ used
run-epoch_example =
    run-epoch used (registers state ∷ unregisters 7 ∷ []) (omega (arith, used_epoch)) (omega arith)
      idle_epoch
