-- ===== src/Vision/Stream.antt =====
-- crates/clash-proxynet/src/vision.rs: what the reader delivers of frames that arrive in pieces.
use rust_clash.Common.{ℕ, ◌+◌, ◌<◌, ◌≤◌, ◌≡◌, refl, Option, List, ◌++◌, length, All}
use rust_clash.Io.{Turn, reads}
use rust_clash.Io.Steps.{Gives}
use rust_clash.Io.Reads.{reads_whole}
use rust_clash.Vision.{new_read, reader}
use rust_clash.Vision.Frames.{Frames, Ending, wire_of, carried, IsFrame, IsEnding}
use rust_clash.Vision.Due.{Due}
use rust_clash.Vision.Read.{reader-IsLawful}

-- A new stream whose session gives the 16 bytes of the user's identifier and then frames, of which
-- each has content and fits the buffer, and which end as they are or with a frame of the command
-- END and bytes that no frame is around: there is a byte behind the identifier. The bytes arrive
-- in whatever pieces, and there are as many calls as the frames carry bytes, each with room in its
-- buffer. Then the calls read exactly what the frames carry, and the bytes behind the frame of
-- END.
pub reads_framed_payload :
    (uuid : List ℕ) (detach : List ℕ → Option (List ℕ)) (fs : Frames) (end : Ending)
    (rooms : List ℕ) (turns : List Turn)
    → length uuid ≡ 16
    → All IsFrame fs
    → IsEnding end
    → 0 < length (wire_of fs end)
    → All (λ room. 0 < room) rooms
    → length (carried fs end) ≤ length rooms
    → All Gives turns
    → length (uuid ++ wire_of fs end) + length rooms ≤ length turns
    → reads (reader uuid detach) rooms new_read (uuid ++ wire_of fs end) turns ≡ carried fs end
reads_framed_payload uuid detach fs end rooms turns sixteen all ok some_wire room few give t =
    reads_whole (Due uuid) (reader uuid detach) (reader-IsLawful uuid sixteen detach) rooms new_read
      (uuid ++ wire_of fs end) (carried fs end) turns room
      (fs, end, all, ok, some_wire, refl, refl, refl, refl, refl, refl) give few t
