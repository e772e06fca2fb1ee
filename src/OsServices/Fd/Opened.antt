-- ===== src/OsServices/Fd/Opened.antt =====
-- file_descriptor_deleter of src/os_services/fd/file_descriptor.hpp: the descriptors that are open
-- are a list, with the newest first.
pub mod Counts
use the_pipe.Base.{ℕ, List, [], ◌∷◌, ◌==◌, if◌then◌else◌}

unfoldable pub close_descriptor : ℕ → List ℕ → List ℕ
close_descriptor fd [] = []
close_descriptor fd (g ∷ opened) =
    let rest = close_descriptor fd opened in if g == fd then opened else g ∷ rest
