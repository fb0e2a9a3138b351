-- ===== src/Coroutine/Awaiting.antt =====
-- include/__ngr/__core/__task.hpp: a task that is awaited, and what its parent gets.
use model_lib.Base.{
  ℕ, ◌≡◌, ◌≢◌, refl, ◌∙◌, true, false, some, List, [], ◌∷◌, ◌⊎◌, inl, inr, ne→==false,
}
use model_lib.Store.{Ptr, null}
use model_lib.Store.Seg.{has}
use model_lib.Stop.Callbacks.Order.{Registered}
use model_lib.Stop.Requests.{StopSource}
use model_lib.Stop.Requests.Runs.{make_callback-Registered, end_callback-Registered}
use model_lib.Coroutine.Promise.{
  Promise, on_await_suspend, final_suspend, await_resume, may_destroy, finish, outcome,
  return_value, set_exception,
}

module _ {E A : Type 0} where
  kept_links :
      (o : E ⊎ A) (p : Promise E A)
      → ((finish o p).forward ≡ p.forward) × ((finish o p).continuation ≡ p.continuation)
  unfolding return_value set_exception
  kept_links (inl e) p = (refl, refl)
  kept_links (inr r) p = (refl, refl)

  resumes_with :
      (o : E ⊎ A) (p : Promise E A)
      → (await_resume (finish o p) ≡ outcome o) × (may_destroy (finish o p) ≡ true)
  unfolding return_value set_exception await_resume may_destroy
  resumes_with (inl e) p = (refl, refl)
  resumes_with (inr r) p = (refl, refl)

  -- A task that is awaited by a coroutine whose stop source is not locked and not stopped registers its
  -- callback there, before the others. When the task ends, the parent is resumed and gets the value
  -- returned or the exception thrown, the parent's source has the callbacks that it had and has
  -- executed none meanwhile, and the result may be destroyed.
  pub awaited_task :
      (fuel : ℕ) (parent token cb : Ptr) (p : Promise E A) (ps : StopSource) (xs : List Ptr)
      (o : E ⊎ A)
      → token ≢ null
      → ps.byte ≡ 0
      → Registered ps.callbacks xs
      → cb ≢ null
      → has cb xs ≡ false
      → (p1 : Promise E A) × (ps1 : StopSource) × (ps2 : StopSource) × (on_await_suspend fuel parent
            token cb p ps
          ≡ some (p1, ps1))
        × Registered ps1.callbacks (cb ∷ xs)
        × (final_suspend cb (finish o p1) ps1 ≡ some (parent, ps2))
        × Registered ps2.callbacks xs
        × (ps2.ran ≡ ps.ran)
        × (await_resume (finish o p1) ≡ outcome o)
        × (may_destroy (finish o p1) ≡ true)
  unfolding on_await_suspend final_suspend
  awaited_task fuel parent token cb p ps xs o real open_byte ch nn out =
      let (ps1, made, linked, byte1, ran1) =
        make_callback-Registered token cb ps xs real open_byte ch nn out in
      let (ps2, ended, left, byte2, ran2) =
        end_callback-Registered token cb ps1 [] xs real byte1 linked in
      let p1 = record p { continuation = parent; forward = token } in
      let links = kept_links o p1 in
      let done = resumes_with o p1 in
      (
        p1,
        ps1,
        ps2,
        rw made (rw (ne→==false token null real)),
        linked,
        rw (links.0, ended, links.1),
        left,
        ran2 ∙ ran1,
        done.0,
        done.1,
      )
