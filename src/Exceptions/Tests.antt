-- ===== src/Exceptions/Tests.antt =====
-- The allocation exception.
use mush_os.Base.{◌≡◌, refl, none, [], ◌∷◌}
use mush_os.Exceptions.{
  Exception, terminate, no_handlers, library_allocation, handle_exceptions, throw_exception,
}

abbrev allocation : Exception
allocation = record { id = 1; type_text = none; message = none; file = []; line = 0 }

-- The library's own handler ends the program with the number of the heap exception.
library_answer :
    throw_exception (handle_exceptions 1 library_allocation no_handlers) allocation
    ≡ terminate 2 ∷ []
unfolding throw_exception handle_exceptions
library_answer = refl
