-- ===== src/DrawOperation/ToolType.antt =====
-- enum class tool_type : uint8_t of common/canvas/draw_operation.h. Any byte is a value of it, named
-- or not, so a tool is its byte.
use sketch_sync.Prelude.{ℕ}

abbrev pub freehand : ℕ
freehand = 0x00

abbrev pub line : ℕ
line = 0x01

abbrev pub rect : ℕ
rect = 0x02

abbrev pub ellipse : ℕ
ellipse = 0x03

abbrev pub eraser : ℕ
eraser = 0x04

abbrev pub clear : ℕ
clear = 0x05

abbrev pub filled_rect : ℕ
filled_rect = 0x06

abbrev pub filled_ellipse : ℕ
filled_ellipse = 0x07

abbrev pub bucket_fill : ℕ
bucket_fill = 0x08

abbrev pub brush : ℕ
brush = 0x09
