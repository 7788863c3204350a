-- ===== src/Exceptions/Laws.antt =====
-- Which handler answers an exception.
use mush_os.Base.{ℕ, ◌<◌, ◌≡◌, ◌≢◌, arith}
use mush_os.Exceptions.{
  Handler, Handlers, Exception, handle_exceptions, run_handler, throw_exception,
}

-- After a handler is registered for an id, a thrown exception of that id runs this handler and
-- nothing else, and exceptions of other ids are answered as before.
pub throw_exception-handle_exceptions :
    (id : ℕ) (handler : Handler) (handlers : Handlers) (exc : Exception)
    → id < 256
    → (exc.id ≡ id
        → throw_exception (handle_exceptions id handler handlers) exc ≡ run_handler handler)
      × (exc.id ≢ id
          → throw_exception (handle_exceptions id handler handlers) exc
            ≡ throw_exception handlers exc)
unfolding throw_exception handle_exceptions
throw_exception-handle_exceptions id handler handlers exc h =
    (λ e. ground arith, λ ne. ground arith)
