-- ===== src/Frame.antt =====
-- What the kernel saves of a process when it leaves the processor: ProcessContext and SyscallFrame
-- of kernel/krust/src/kernel/process.rs.
use vertex_os.Base.{ℕ}

pub record ProcessContext : Type 0 where
  pub cr3 : ℕ
  pub entry : ℕ
  pub stack_top : ℕ

pub record SyscallFrame : Type 0 where
  pub r15 : ℕ
  pub r14 : ℕ
  pub r13 : ℕ
  pub r12 : ℕ
  pub r11 : ℕ
  pub r10 : ℕ
  pub r9 : ℕ
  pub r8 : ℕ
  pub rsi : ℕ
  pub rdi : ℕ
  pub rbp : ℕ
  pub rdx : ℕ
  pub rcx : ℕ
  pub rbx : ℕ
  pub rax : ℕ
  pub user_rip : ℕ
  pub user_cs : ℕ
  pub user_rflags : ℕ
  pub user_rsp : ℕ
  pub user_ss : ℕ

-- `gdt::USER_DATA_SELECTOR`, 0x18 | 3
abbrev user_data_selector : ℕ
user_data_selector = 27

-- `gdt::USER_CODE_SELECTOR`, 0x20 | 3
abbrev user_code_selector : ℕ
user_code_selector = 35

-- 0x202
abbrev initial_user_rflags : ℕ
initial_user_rflags = 514

-- `SyscallFrame::empty()`
unfoldable pub empty_frame : SyscallFrame
empty_frame = record {
  r15 = 0;
  r14 = 0;
  r13 = 0;
  r12 = 0;
  r11 = 0;
  r10 = 0;
  r9 = 0;
  r8 = 0;
  rsi = 0;
  rdi = 0;
  rbp = 0;
  rdx = 0;
  rcx = 0;
  rbx = 0;
  rax = 0;
  user_rip = 0;
  user_cs = 0;
  user_rflags = 0;
  user_rsp = 0;
  user_ss = 0;
}

unfoldable pub from_context : ProcessContext → SyscallFrame
unfolding empty_frame
from_context context = record empty_frame {
  user_rip = context.entry;
  user_cs = user_code_selector;
  user_rflags = initial_user_rflags;
  user_rsp = context.stack_top;
  user_ss = user_data_selector;
}
