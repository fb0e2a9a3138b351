-- ===== src/Store/Steps.antt =====
-- Reads and writes of the links of real nodes succeed.
use model_lib.Base.{◌≡◌, ◌≢◌, some, not, ◌==◌, ne→==false}
use model_lib.Store.{Ptr, null, Links, write, load, store, assert}

module _ (p : Ptr) (nn : p ≢ null) where
  pub load-some : (h : Links) → load p h ≡ some (h p, h)
  load-some h = rw (ne→==false p null nn)

  pub store-some : (v : Ptr) (h : Links) → store p v h ≡ some (tt, write h p v)
  store-some v h = rw (ne→==false p null nn)

  pub assert-some : (h : Links) → assert (not (p == null)) h ≡ some (tt, h)
  assert-some h = rw (ne→==false p null nn)
