-- ===== src/Keyboard/Table.antt =====
-- device/keyboard.c: the table of the scan codes, each with the character alone and combined.
use ghittle.Base.{ℕ, List, [], ◌∷◌}

abbrev pub key_map_entry : List (ℕ × ℕ)
key_map_entry =
    (0x00, 0x00)
    ∷ (0x1B, 0x1B)
    ∷ (b'1', 33)
    ∷ (b'2', 64)
    ∷ (b'3', 35)
    ∷ (b'4', 36)
    ∷ (b'5', 37)
    ∷ (b'6', 94)
    ∷ (b'7', 38)
    ∷ (b'8', 42)
    ∷ (b'9', 40)
    ∷ (b'0', 41)
    ∷ (45, 95)
    ∷ (61, 43)
    ∷ (0x08, 0x08)
    ∷ (9, 9)
    ∷ (b'q', b'Q')
    ∷ (b'w', b'W')
    ∷ (b'e', b'E')
    ∷ (b'r', b'R')
    ∷ (b't', b'T')
    ∷ (b'y', b'Y')
    ∷ (b'u', b'U')
    ∷ (b'i', b'I')
    ∷ (b'o', b'O')
    ∷ (b'p', b'P')
    ∷ (91, 123)
    ∷ (93, 125)
    ∷ (10, 10)
    ∷ (0x81, 0x81)
    ∷ (b'a', b'A')
    ∷ (b's', b'S')
    ∷ (b'd', b'D')
    ∷ (b'f', b'F')
    ∷ (b'g', b'G')
    ∷ (b'h', b'H')
    ∷ (b'j', b'J')
    ∷ (b'k', b'K')
    ∷ (b'l', b'L')
    ∷ (59, 58)
    ∷ (39, 34)
    ∷ (96, 126)
    ∷ (0x82, 0x82)
    ∷ (92, 124)
    ∷ (b'z', b'Z')
    ∷ (b'x', b'X')
    ∷ (b'c', b'C')
    ∷ (b'v', b'V')
    ∷ (b'b', b'B')
    ∷ (b'n', b'N')
    ∷ (b'm', b'M')
    ∷ (44, 60)
    ∷ (46, 62)
    ∷ (47, 63)
    ∷ (0x83, 0x83)
    ∷ (42, 42)
    ∷ (0x85, 0x85)
    ∷ (32, 32)
    ∷ (0x86, 0x86)
    ∷ (0x87, 0x87)
    ∷ (0x88, 0x88)
    ∷ (0x89, 0x89)
    ∷ (0x8A, 0x8A)
    ∷ (0x8B, 0x8B)
    ∷ (0x8C, 0x8C)
    ∷ (0x8D, 0x8D)
    ∷ (0x8E, 0x8E)
    ∷ (0x8F, 0x8F)
    ∷ (0x90, 0x90)
    ∷ (0x91, 0x91)
    ∷ (0x92, 0x92)
    ∷ (0x93, b'7')
    ∷ (0x94, b'8')
    ∷ (0x95, b'9')
    ∷ (45, 45)
    ∷ (0x96, b'4')
    ∷ (0x97, b'5')
    ∷ (0x98, b'6')
    ∷ (43, 43)
    ∷ (0x99, b'1')
    ∷ (0x9A, b'2')
    ∷ (0x9B, b'3')
    ∷ (0x9C, b'0')
    ∷ (0x9D, 46)
    ∷ (0x00, 0x00)
    ∷ (0x00, 0x00)
    ∷ (0x00, 0x00)
    ∷ (0x9E, 0x9E)
    ∷ (0x9F, 0x9F)
    ∷ []
