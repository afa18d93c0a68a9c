-- ===== src/Tests/Cbox.antt =====
-- Stream data in two pieces, split inside a nested annotation.
use brewblox_devcon_spark.Base.{◌≡◌, refl, [], ◌∷◌, ◌++◌, Text}
use brewblox_devcon_spark.Base.Str.{contains}
use brewblox_devcon_spark.CboxParser.{init, push, coerce_message_from_buffer, find_event, find_data}
use brewblox_devcon_spark.CboxParser.Annotations.{
  scan, outside, flatten, coerce_message_from_buffer-scan,
}
use brewblox_devcon_spark.CboxParser.Lines.{lines, coerce_message_from_buffer-lines}
use brewblox_devcon_spark.CboxParser.Chunks.{push-append}

abbrev front : Text
front = b'a' ∷ b'<' ∷ b'!' ∷ b'<' ∷ b'x' ∷ b'>' ∷ b'y' ∷ []

abbrev back : Text
back = b' ' ∷ b'>' ∷ b'b' ∷ b'\n' ∷ b'c' ∷ []

push-append_example : push (push init front) back ≡ push init (front ++ back)
push-append_example = push-append init front back (unfold scan in (unfold contains in refl, tt))

coerce_message_from_buffer-scan_example :
    let p = scan (front ++ back) (outside []) in
    coerce_message_from_buffer find_event b'>' (front ++ back)
    ≡ record { messages = p.done; buffer = flatten p.open_part }
coerce_message_from_buffer-scan_example = coerce_message_from_buffer-scan (front ++ back)

coerce_message_from_buffer-lines_example :
    coerce_message_from_buffer find_data b'\n' back ≡ lines [] back
coerce_message_from_buffer-lines_example = coerce_message_from_buffer-lines back
